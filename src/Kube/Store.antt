-- ===== src/Kube/Store.antt =====
-- What the API server promises for one kind of object, and a store that keeps the promise.
pub mod Frame
use mathlib.Core.Path.{subst}
use meteor_operator.Prelude.{
  ◌≡◌, refl, sym, ap, ◌∙◌, Bool, true, false, ◌&&◌, none, List, [], ◌∷◌, ◌==◌, eq_iff, eq_refl,
  arith, Bool-cases, inl, inr, if◌then◌else◌,
}
use meteor_operator.Kube.Meta.{NamespacedName}
use meteor_operator.Kube.Client.{Result, ok, err, Resource, ok-injective}
use meteor_operator.Kube.Doubles.{missing_object, refusal}

-- Objects are found under their keys, reads change nothing, and what is written is read back, with
-- the part `spec` as it was given.
pub record IsStore {W T S : Type 0} (R : Resource W T) (key_of : T → NamespacedName) (spec : T → S)
    : Type 0 where
  pub get-world : (k : NamespacedName) (w : W) → (R.get k w).1 ≡ w
  pub get-key : (k : NamespacedName) (x : T) (w w' : W) → R.get k w ≡ (ok x, w') → key_of x ≡ k
  pub create-get :
      (x y : T) (w w' : W) → R.create x w ≡ (ok y, w') → R.get (key_of x) w' ≡ (ok y, w')
  pub create-spec : (x y : T) (w w' : W) → R.create x w ≡ (ok y, w') → spec y ≡ spec x
  pub update-get :
      (x y : T) (w w' : W) → R.update x w ≡ (ok y, w') → R.get (key_of x) w' ≡ (ok y, w')
  pub update-spec : (x y : T) (w w' : W) → R.update x w ≡ (ok y, w') → spec y ≡ spec x

abbrev pub same_key : NamespacedName → NamespacedName → Bool
same_key a b = a.name == b.name && a.namespace == b.namespace

module _ {T : Type 0} (key_of : T → NamespacedName) where
  abbrev pub find : NamespacedName → List T → Result T
  find k [] = err missing_object
  find k (x ∷ xs) = let rest = find k xs in if same_key (key_of x) k then ok x else rest

  abbrev pub replace : T → List T → List T
  replace y [] = []
  replace y (x ∷ xs) =
      let rest = replace y xs in if same_key (key_of x) (key_of y) then y ∷ xs else x ∷ rest

  abbrev pub create_if : Result T → T → List T → Result T × List T
  create_if (ok _) x xs = (err refusal, xs)
  create_if (err _) x xs = (ok x, x ∷ xs)

  abbrev pub update_if : Result T → T → List T → Result T × List T
  update_if (ok _) x xs = (ok x, replace x xs)
  update_if (err e) x xs = (err e, xs)

  -- The objects in a list, by their keys.
  abbrev pub store : Resource (List T) T
  store = record {
    get = λ k xs. (find k xs, xs);
    list = λ xs. (ok xs, xs);
    create = λ x xs. create_if (find (key_of x) xs) x xs;
    update = λ x xs. update_if (find (key_of x) xs) x xs;
    update_status = λ x xs. update_if (find (key_of x) xs) x xs;
    delete = λ x xs. (none, xs);
  }

pub same_key_refl : (k : NamespacedName) → same_key k k ≡ true
same_key_refl k = rw (eq_refl k.name, eq_refl k.namespace) refl

both : (a b : Bool) → (a && b) ≡ true → (a ≡ true) × (b ≡ true)
both a b h = (ground arith, ground arith)

pub same_key-eq : (a b : NamespacedName) → same_key a b ≡ true → a ≡ b
same_key-eq a b h =
    let (p, q) = both (a.name == b.name) (a.namespace == b.namespace) h in
    let n = (eq_iff a.name b.name).0 p in
    let m = (eq_iff a.namespace b.namespace).0 q in λ i. record { name = n i; namespace = m i }

module _ {T : Type 0} (key_of : T → NamespacedName) where
  find-cons :
      (k : NamespacedName) (x y : T) (xs : List T) (b : Bool)
      → same_key (key_of x) k ≡ b
      → (find key_of k xs ≡ ok y → key_of y ≡ k)
      → (if b then ok x else find key_of k xs) ≡ ok y
      → key_of y ≡ k
  find-cons k x y xs true s rest h = ap key_of (sym (ok-injective h)) ∙ same_key-eq (key_of x) k s
  find-cons k x y xs false s rest h = rest h

  find-key : (k : NamespacedName) (y : T) (xs : List T) → find key_of k xs ≡ ok y → key_of y ≡ k
  find-key k y [] h = cc
  find-key k y (x ∷ xs) h = find-cons k x y xs (same_key (key_of x) k) refl (find-key k y xs) h

  find-replace :
      (y z : T) (xs : List T)
      → find key_of (key_of y) xs ≡ ok z
      → find key_of (key_of y) (replace key_of y xs) ≡ ok y
  find-replace y z [] h = cc
  find-replace y z (x ∷ xs) h = elim (Bool-cases (same_key (key_of x) (key_of y))) [
    | inl p ↦ rw (p, same_key_refl (key_of y)) refl
    | inr p ↦ rw (p, p) (find-replace y z xs (ground arith))
  ]

  created :
      (r : Result T) (x y : T) (xs ys : List T)
      → create_if key_of r x xs ≡ (ok y, ys)
      → (y ≡ x) × (ys ≡ x ∷ xs)
  created (ok z) x y xs ys h = cc
  created (err e) x y xs ys h = (sym (ok-injective (ap (λ p. p.0) h)), sym (ap (λ p. p.1) h))

  updated :
      (r : Result T) (x y : T) (xs ys : List T)
      → update_if key_of r x xs ≡ (ok y, ys)
      → (y ≡ x) × (ys ≡ replace key_of x xs) × ((z : T) × (r ≡ ok z))
  updated (ok z) x y xs ys h =
      (sym (ok-injective (ap (λ p. p.0) h)), sym (ap (λ p. p.1) h), (z, refl))
  updated (err e) x y xs ys h = cc

  pub store-IsStore : {S : Type 0} (spec : T → S) → IsStore (store key_of) key_of spec
  store-IsStore spec = record {
    get-world = λ k xs. refl;
    get-key = λ k x xs ys h. find-key k x xs (ap (λ p. p.0) h);
    create-get = λ x y xs ys h.
        let (p, q) = created (find key_of (key_of x) xs) x y xs ys h in
        rw (p, q, same_key_refl (key_of x)) refl;
    create-spec = λ x y xs ys h. ap spec (created (find key_of (key_of x) xs) x y xs ys h).0;
    update-get = λ x y xs ys h.
        let (p, q, (z, e)) = updated (find key_of (key_of x) xs) x y xs ys h in
        rw (p, q, find-replace x z xs e) refl;
    update-spec = λ x y xs ys h. ap spec (updated (find key_of (key_of x) xs) x y xs ys h).0;
  }

-- A part of the cluster's state.
pub record Part (W V : Type 0) : Type 0 where
  pub view : W → V
  pub put : W → V → W
  pub view-put : (w : W) (v : V) → view (put w v) ≡ v
  pub put-view : (w : W) → put w (view w) ≡ w

abbrev pub over : {W V T : Type 0} → Part W V → Resource V T → Resource W T
over P R = record {
  get = λ k w. let (r, v) = R.get k (P.view w) in (r, P.put w v);
  list = λ w. let (r, v) = R.list (P.view w) in (r, P.put w v);
  create = λ x w. let (r, v) = R.create x (P.view w) in (r, P.put w v);
  update = λ x w. let (r, v) = R.update x (P.view w) in (r, P.put w v);
  update_status = λ x w. let (r, v) = R.update_status x (P.view w) in (r, P.put w v);
  delete = λ x w. let (r, v) = R.delete x (P.view w) in (r, P.put w v);
}

written-get :
    {W V T : Type 0} (P : Part W V) (R : Resource V T) (k : NamespacedName) (y : T) (w w' : W)
    (v : V)
    → w' ≡ P.put w v
    → R.get k v ≡ (ok y, v)
    → (over P R).get k w' ≡ (ok y, w')
written-get P R k y w w' v e g =
    ap (λ p. (p.0, P.put w' p.1))
      (subst (λ u. R.get k u ≡ (ok y, u)) (sym (ap P.view e ∙ P.view-put w v)) g)
    ∙ ap (λ u. (ok y, u)) (P.put-view w')

answered :
    {W V T : Type 0} (P : Part W V) (w w' : W) (a : Result T × V) (y : T)
    → ◌≡◌ {A = Result T × W} (a.0, P.put w a.1) (ok y, w')
    → a ≡ (ok y, a.1)
answered P w w' a y h = ap (λ r. (r, a.1)) (ap (λ p. p.0) h)

pub over-IsStore :
    {W V T S : Type 0} {R : Resource V T} {key_of : T → NamespacedName} {spec : T → S}
    (P : Part W V)
    → IsStore R key_of spec
    → IsStore (over P R) key_of spec
over-IsStore {R = R} P s = record {
  get-world = λ k w. ap (P.put w) (s.get-world k (P.view w)) ∙ P.put-view w;
  get-key = λ k x w w' h. s.get-key k x (P.view w) _ (answered P w w' (R.get k (P.view w)) x h);
  create-get = λ x y w w' h.
      written-get P R _ y w w' _ (sym (ap (λ p. p.1) h))
        (s.create-get x y (P.view w) _ (answered P w w' (R.create x (P.view w)) y h));
  create-spec =
      λ x y w w' h. s.create-spec x y (P.view w) _ (answered P w w' (R.create x (P.view w)) y h);
  update-get = λ x y w w' h.
      written-get P R _ y w w' _ (sym (ap (λ p. p.1) h))
        (s.update-get x y (P.view w) _ (answered P w w' (R.update x (P.view w)) y h));
  update-spec =
      λ x y w w' h. s.update-spec x y (P.view w) _ (answered P w w' (R.update x (P.view w)) y h);
}

-- ===== src/Shower/Ensure/Again.antt =====
-- A reconciliation that has succeeded, followed by another one.
use mathlib.Core.Path.{subst}
use meteor_operator.Prelude.{
  ◌≡◌, refl, sym, ap, ◌∙◌, Bool, true, false, not, arith, Option, none, some, Bool-cases, inl, inr,
  if◌then◌else◌,
}
use meteor_operator.Kube.Meta.{NamespacedName}
use meteor_operator.Kube.Client.{Result, ok, err, Resource}
use meteor_operator.Kube.Store.{IsStore}
use meteor_operator.Shower.Ensure.{
  Ensured, kept, error_of, after_create, after_update, amend, after_get, ensure,
}

-- A new object is as it is wanted; one that is as it is wanted is left alone, and any other one is
-- changed to be so.
pub record Converges {T S : Type 0} (key_of : T → NamespacedName) (spec : T → S)
    (key : NamespacedName) (fresh : T) (change : T → Option T) : Type 0 where
  pub wanted : S → Bool
  pub fresh-key : key_of fresh ≡ key
  pub fresh-wanted : wanted (spec fresh) ≡ true
  pub change-wanted : (x : T) → wanted (spec x) ≡ true → change x ≡ none
  pub change-other :
      (x : T)
      → wanted (spec x) ≡ false
      → (y : T) × (change x ≡ some y) × (wanted (spec y) ≡ true) × (key_of y ≡ key_of x)

not-eq-true : (b : Bool) → not b ≡ true → b ≡ false
not-eq-true b h = ground arith

not-eq-false : (b : Bool) → not b ≡ false → b ≡ true
not-eq-false b h = ground arith

not-of : (b : Bool) → b ≡ false → not b ≡ true
not-of b h = ground arith

-- A change that is made when a test finds the object different, and after which it does not.
pub by_test :
    {T S : Type 0} {key_of : T → NamespacedName} {spec : T → S} {key : NamespacedName} {fresh : T}
    {change : T → Option T} (differs : S → Bool) (adapt : T → T)
    → key_of fresh ≡ key
    → differs (spec fresh) ≡ false
    → ((x : T) → change x ≡ (if differs (spec x) then some (adapt x) else none))
    → ((x : T) → differs (spec (adapt x)) ≡ false)
    → ((x : T) → key_of (adapt x) ≡ key_of x)
    → Converges key_of spec key fresh change
by_test {spec = spec} differs adapt k f change adapted same = record {
  wanted = λ r. not (differs r);
  fresh-key = k;
  fresh-wanted = not-of _ f;
  change-wanted = λ x h. rw (change x, not-eq-true (differs (spec x)) h) refl;
  change-other = λ x h. (
    adapt x,
    rw (change x, not-eq-false (differs (spec x)) h) refl,
    not-of _ (adapted x),
    same x,
  );
}

pub with_world : {A W : Type 0} (p : A × W) (w : W) → p.1 ≡ w → p ≡ (p.0, w)
with_world p w e i = (p.0, e i)

module _ {W T S : Type 0} (R : Resource W T) {key_of : T → NamespacedName} {spec : T → S}
    (key : NamespacedName) (fresh : T) (change : T → Option T) (store : IsStore R key_of spec)
    (C : Converges key_of spec key fresh change) where
  -- An object in place leaves nothing to do.
  abbrev pub Settled : W → Type 0
  Settled w = (x : T) × (ensure R key fresh change w ≡ (kept x, w))

  -- It ends with an error, or in a cluster that leaves nothing to do.
  abbrev pub EndsSettled : Ensured T × W → Type 0
  EndsSettled (e, w) = error_of e ≡ none → Settled w

  placed : (x : T) (w : W) → R.get key w ≡ (ok x, w) → C.wanted (spec x) ≡ true → Settled w
  unfolding ensure
  placed x w g h = (x, rw (g, C.change-wanted x h) refl)

  after_create-EndsSettled :
      (answer : Result T × W) (w : W)
      → R.create fresh w ≡ answer
      → EndsSettled (after_create R answer)
  after_create-EndsSettled (ok y, w') w e n =
      placed y w' (ap (λ k. R.get k w') (sym C.fresh-key) ∙ store.create-get fresh y w w' e)
        (ap C.wanted (store.create-spec fresh y w w' e) ∙ C.fresh-wanted)
  after_create-EndsSettled (err _, w') w e n = cc

  after_update-EndsSettled :
      (y : T) (answer : Result T × W) (w : W)
      → R.update y w ≡ answer
      → key_of y ≡ key
      → C.wanted (spec y) ≡ true
      → EndsSettled (after_update R answer)
  after_update-EndsSettled y (ok z, w') w e k h n =
      placed z w' (ap (λ k. R.get k w') (sym k) ∙ store.update-get y z w w' e)
        (ap C.wanted (store.update-spec y z w w' e) ∙ h)
  after_update-EndsSettled y (err _, w') w e k h n = cc

  amend-EndsSettled :
      (x : T) (w : W) → R.get key w ≡ (ok x, w) → EndsSettled (amend R x (change x) w)
  amend-EndsSettled x w g = elim (Bool-cases (C.wanted (spec x))) [
    | inl h ↦ rw (C.change-wanted x h) (λ n. placed x w g h)
    | inr h ↦
        let (y, c, wanted, k) = C.change-other x h in
        rw c (after_update-EndsSettled y _ w refl (k ∙ store.get-key key x w w g) wanted)
  ]

  after_get-EndsSettled :
      (r : Result T) (w : W) → R.get key w ≡ (r, w) → EndsSettled (after_get R fresh change (r, w))
  after_get-EndsSettled (ok x) w g = amend-EndsSettled x w g
  after_get-EndsSettled (err e) w g = elim (Bool-cases e.not_found) [
    | inl h ↦ rw h (after_create-EndsSettled _ w refl)
    | inr h ↦ rw h (λ n. cc)
  ]

  -- Where the API server stores what it is given and the change converges, a reconciliation of one
  -- object that ends without an error leaves nothing to do: the next one finds the object, keeps it
  -- and writes nothing.
  pub ensure-EndsSettled : (w : W) → EndsSettled (ensure R key fresh change w)
  unfolding ensure
  ensure-EndsSettled w =
      let answered = with_world (R.get key w) w (store.get-world key w) in
      subst (λ a. EndsSettled (after_get R fresh change a)) (sym answered)
        (after_get-EndsSettled (R.get key w).0 w answered)

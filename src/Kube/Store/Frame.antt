-- ===== src/Kube/Store/Frame.antt =====
-- What a write to a list of objects leaves as it is.
use meteor_operator.Prelude.{
  ◌≡◌, ◌≢◌, refl, sym, ap, ◌∙◌, false, List, [], ◌∷◌, Bool-cases, inl, inr, if◌then◌else◌,
}
use meteor_operator.Kube.Meta.{NamespacedName}
use meteor_operator.Kube.Client.{Result, ok, err, ok-injective}
use meteor_operator.Kube.Store.{same_key, same_key-eq, find, replace, create_if, update_if, store}

other_key : (a b : NamespacedName) → a ≢ b → same_key a b ≡ false
other_key a b d = elim (Bool-cases (same_key a b)) [
  | inl e ↦ absurd (d (same_key-eq a b e))
  | inr e ↦ e
]

module _ {T : Type 0} (key_of : T → NamespacedName) where
  find-cons_other :
      (k : NamespacedName) (x : T) (xs : List T)
      → key_of x ≢ k
      → find key_of k (x ∷ xs) ≡ find key_of k xs
  find-cons_other k x xs d = rw (other_key (key_of x) k d) refl

  find-replace_other :
      (k : NamespacedName) (x : T) (xs : List T)
      → key_of x ≢ k
      → find key_of k (replace key_of x xs) ≡ find key_of k xs
  find-replace_other k x [] d = refl
  find-replace_other k x (y ∷ ys) d = elim (Bool-cases (same_key (key_of y) (key_of x))) [
    | inr e ↦ rw (e, find-replace_other k x ys d) refl
    | inl e ↦ rw e (
        find-cons_other k x ys d
        ∙ sym (find-cons_other k y ys (λ h. d (sym (same_key-eq (key_of y) (key_of x) e) ∙ h))))
  ]

  find-create_other :
      (k : NamespacedName) (r : Result T) (x : T) (xs : List T)
      → key_of x ≢ k
      → find key_of k (create_if key_of r x xs).1 ≡ find key_of k xs
  find-create_other k (ok _) x xs d = refl
  find-create_other k (err _) x xs d = find-cons_other k x xs d

  find-update_other :
      (k : NamespacedName) (r : Result T) (x : T) (xs : List T)
      → key_of x ≢ k
      → find key_of k (update_if key_of r x xs).1 ≡ find key_of k xs
  find-update_other k (ok _) x xs d = find-replace_other k x xs d
  find-update_other k (err _) x xs d = refl

  -- An object is created or updated under its own key only.
  pub find-create :
      (k : NamespacedName) (x : T) (xs : List T)
      → key_of x ≢ k
      → find key_of k ((store key_of).create x xs).1 ≡ find key_of k xs
  find-create k x xs d = find-create_other k (find key_of (key_of x) xs) x xs d

  pub find-update :
      (k : NamespacedName) (x : T) (xs : List T)
      → key_of x ≢ k
      → find key_of k ((store key_of).update x xs).1 ≡ find key_of k xs
  find-update k x xs d = find-update_other k (find key_of (key_of x) xs) x xs d

  replace_same : (x : T) (xs : List T) → find key_of (key_of x) xs ≡ ok x → replace key_of x xs ≡ xs
  replace_same x [] h = cc
  replace_same x (y ∷ ys) h = elim (Bool-cases (same_key (key_of y) (key_of x))) [
    | inl e ↦ rw e (
        ap (λ z. z ∷ ys)
          (sym
            (ok-injective (sym (ap (λ b. if b then ok y else find key_of (key_of x) ys) e) ∙ h))))
    | inr e ↦ rw e (
        ap (λ l. y ∷ l)
          (replace_same x ys (sym (ap (λ b. if b then ok y else find key_of (key_of x) ys) e) ∙ h)))
  ]

  -- An update that changes nothing.
  pub update_same :
      (x : T) (xs : List T)
      → find key_of (key_of x) xs ≡ ok x
      → (store key_of).update x xs ≡ (ok x, xs)
  update_same x xs h =
      ap (λ r. update_if key_of r x xs) h ∙ ap (λ l. (ok x, l)) (replace_same x xs h)

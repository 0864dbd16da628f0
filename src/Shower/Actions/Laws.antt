-- ===== src/Shower/Actions/Laws.antt =====
-- What `reconcileRole` leaves, and that rules equal themselves.
use meteor_operator.Prelude.{
  String, ◌≡◌, refl, Bool, true, List, [], ◌∷◌, ◌==◌, eq_refl, Bool-cases, inl, inr,
}
use meteor_operator.Kube.Client.{Result, ok, err, Resource}
use meteor_operator.Shower.Objects.{PolicyRule, Role, equal_lists, equal_rules}
use meteor_operator.Shower.Ensure.{
  Ensured, after_create, kept, after_update, amend, after_get, ensure,
}
use meteor_operator.Shower.Desired.{change_role}
use meteor_operator.Shower.Actions.{key}

pub equal_lists_refl {ℓ} :
    {A : Type ℓ} (eq : A → A → Bool) (xs : List A)
    → ((x : A) → eq x x ≡ true)
    → equal_lists eq xs xs ≡ true
equal_lists_refl eq [] r = refl
equal_lists_refl eq (x ∷ xs) r = rw (r x, equal_lists_refl eq xs r) refl

pub equal_rules_refl : (a : PolicyRule) → equal_rules a a ≡ true
equal_rules_refl a =
    rw
      (
        equal_lists_refl ◌==◌ a.api_groups eq_refl,
        equal_lists_refl ◌==◌ a.resources eq_refl,
        equal_lists_refl ◌==◌ a.verbs eq_refl,
        equal_lists_refl ◌==◌ a.resource_names eq_refl,
        equal_lists_refl ◌==◌ a.non_resource_urls eq_refl,
      )
      refl

-- The server answers an accepted update with the rules that it was given.
abbrev KeepsRules : {W : Type 0} → Resource W Role → Type 0
KeepsRules {W = W} roles =
    (x y : Role) (w w' : W) → roles.update x w ≡ (ok y, w') → y.rules ≡ x.rules

abbrev Grants : List PolicyRule → {W : Type 0} → Ensured Role × W → Type 0
Grants rules (kept y, w) = equal_lists equal_rules y.rules rules ≡ true
Grants rules (_, w) = Unit

module _ {W : Type 0} (roles : Resource W Role) (keeps : KeepsRules roles)
    (rules : List PolicyRule) where
  updated-Grants :
      (x : Role) (w : W) (answer : Result Role × W)
      → roles.update (record x { rules = rules }) w ≡ answer
      → Grants rules (after_update roles answer)
  updated-Grants x w (ok y, w') e =
      rw (keeps _ y w w' e) (equal_lists_refl equal_rules rules equal_rules_refl)
  updated-Grants x w (err _, w') e = tt

  found-Grants : (x : Role) (w : W) → Grants rules (amend roles x (change_role rules x) w)
  unfolding change_role
  found-Grants x w = elim (Bool-cases (equal_lists equal_rules x.rules rules)) [
    | inl h ↦ rw h h
    | inr h ↦ rw h (updated-Grants x w _ refl)
  ]

  created-Grants : (answer : Result Role × W) → Grants rules (after_create roles answer)
  created-Grants (ok _, w) = tt
  created-Grants (err _, w) = tt

  got-Grants :
      (fresh : Role) (answer : Result Role × W)
      → Grants rules (after_get roles fresh (change_role rules) answer)
  got-Grants fresh (ok x, w) = found-Grants x w
  got-Grants fresh (err e, w) = elim (Bool-cases e.not_found) [
    | inl h ↦ rw h (created-Grants (roles.create fresh w))
    | inr h ↦ rw h tt
  ]

  -- A Role that `reconcileRole` finds and leaves without an error has exactly the wanted rules,
  -- where the server keeps the rules of an update that it accepts.
  ensure-Grants :
      (name namespace : String) (fresh : Role) (w : W)
      → Grants rules (ensure roles (key name namespace) fresh (change_role rules) w)
  unfolding ensure
  ensure-Grants name namespace fresh w = got-Grants fresh (roles.get (key name namespace) w)

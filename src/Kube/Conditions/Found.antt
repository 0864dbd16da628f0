-- ===== src/Kube/Conditions/Found.antt =====
-- What holds of all conditions of a list, and what holds of those that are found by their types.
use mathlib.Core.Path.{subst}
use meteor_operator.Prelude.{
  String, ◌≡◌, ◌≢◌, refl, sym, ◌∙◌, true, false, some, some-injective, List, [], ◌∷◌, ◌==◌, All,
  arith, eq_iff, eq_refl, Bool-cases, inl, inr,
}
use meteor_operator.Kube.Conditions.{Condition, find_condition, IsListMap}

find-hit :
    (t : String) (d : Condition) (cs : List Condition)
    → (d.type == t) ≡ true
    → find_condition t (d ∷ cs) ≡ some d
find-hit t d cs e = rw e refl

find-skip :
    (t : String) (d : Condition) (cs : List Condition)
    → (d.type == t) ≡ false
    → find_condition t (d ∷ cs) ≡ find_condition t cs
find-skip t d cs e = rw e refl

module _ (P : Condition → Type 0) where
  pub found-All :
      (cs : List Condition) (t : String) (c : Condition)
      → All P cs
      → find_condition t cs ≡ some c
      → P c
  found-All [] t c a h = cc
  found-All (d ∷ cs) t c (p, a) h = elim (Bool-cases (d.type == t)) [
    | inl e ↦ subst P (some-injective (sym (find-hit t d cs e) ∙ h)) p
    | inr e ↦ found-All cs t c a (sym (find-skip t d cs e) ∙ h)
  ]

  found-ne :
      (cs : List Condition) (t u : String) (c : Condition)
      → All (λ d. d.type ≢ u) cs
      → find_condition t cs ≡ some c
      → u ≢ t
  found-ne [] t u c a h = cc
  found-ne (d ∷ cs) t u c (n, a) h = elim (Bool-cases (d.type == t)) [
    | inl e ↦ λ q. n ((eq_iff d.type t).0 e ∙ sym q)
    | inr e ↦ found-ne cs t u c a (sym (find-skip t d cs e) ∙ h)
  ]

  -- In a list that is keyed by type every condition is found.
  pub All-found :
      (cs : List Condition)
      → IsListMap cs
      → ((t : String) (c : Condition) → find_condition t cs ≡ some c → P c)
      → All P cs
  All-found [] k h = tt
  All-found (d ∷ cs) (fresh, k) h = (
    h d.type d (find-hit d.type d cs (eq_refl d.type)),
    All-found cs k (λ t c e.
        let n = found-ne cs t d.type c fresh e in
        h t c (find-skip t d cs (ground (arith, eq_iff d.type t, n)) ∙ e)),
  )

-- ===== src/Cre/Conditions.antt =====
-- What setting and removing conditions does to the truth of a condition type, on lists that are
-- keyed by type.
use meteor_operator.Prelude.{
  String, ◌≡◌, ◌≢◌, refl, sym, inl, inr, Bool, true, false, not, ◌||◌, Option, none, some, List, [],
  ◌∷◌, ◌==◌, All, arith, eq_iff, text-cases, if◌then◌else◌,
}
use meteor_operator.Kube.Conditions.{
  Condition, condition_true, find_condition, IsListMap, ConditionOps, AreConditionOps,
}
use meteor_operator.Api.Cre.Aggregate.{holds}

abbrev true_in : Option Condition → Bool
true_in none = false
true_in (some c) = c.status == condition_true

holds_absent : (t : String) (cs : List Condition) → All (λ d. d.type ≢ t) cs → holds t cs ≡ false
holds_absent t [] h = refl
holds_absent t (c ∷ cs) h = ground (arith, eq_iff c.type t, holds_absent t cs h.1)

holds-find :
    (t : String) (cs : List Condition) → IsListMap cs → holds t cs ≡ true_in (find_condition t cs)
holds-find t [] h = refl
holds-find t (c ∷ cs) h = elim (text-cases c.type t) [
  | inl e ↦ ground (arith, eq_iff c.type t, holds_absent t cs (rw (sym e) h.0))
  | inr n ↦ ground (arith, eq_iff c.type t, holds-find t cs h.1)
]

module _ {ops : ConditionOps} (laws : AreConditionOps ops) where
  open ops use {set_status_condition, remove_status_condition}

  pub holds-set :
      (t : String) (cs : List Condition) (c : Condition)
      → IsListMap cs
      → holds t (set_status_condition cs c)
        ≡ (if c.type == t then c.status == condition_true else holds t cs)
  holds-set t cs c h = ground (
    arith,
    holds-find t (set_status_condition cs c) (laws.set-IsListMap cs c h),
    holds-find t cs h,
    laws.find-set cs c t h,
  )

  pub holds-remove :
      (t u : String) (cs : List Condition)
      → IsListMap cs
      → holds t (remove_status_condition cs u) ≡ (if u == t then false else holds t cs)
  holds-remove t u cs h = ground (
    arith,
    holds-find t (remove_status_condition cs u) (laws.remove-IsListMap cs u h),
    holds-find t cs h,
    laws.find-remove cs u t h,
  )

-- A sequence of edits, none of which makes the type `t` untrue.
pub data Keeps (ops : ConditionOps) (t : String) (cs : List Condition)
    : List Condition → Type 0 where
  start : Keeps ops t cs cs
  set :
      {ds : List Condition}
      → Keeps ops t cs ds
      → (c : Condition) → (not (c.type == t) || c.status == condition_true) ≡ true
      → Keeps ops t cs (ops.set_status_condition ds c)
  remove :
      {ds : List Condition}
      → Keeps ops t cs ds
      → (u : String) → (u == t) ≡ false
      → Keeps ops t cs (ops.remove_status_condition ds u)

pub Keeps-if :
    {ops : ConditionOps} {t : String} {cs xs ys : List Condition} (b : Bool)
    → Keeps ops t cs xs
    → Keeps ops t cs ys
    → Keeps ops t cs (if b then xs else ys)
Keeps-if true k l = k
Keeps-if false k l = l

pub Keeps-IsListMap :
    {ops : ConditionOps} {t : String} {cs ds : List Condition}
    → AreConditionOps ops
    → IsListMap cs
    → Keeps ops t cs ds
    → IsListMap ds
Keeps-IsListMap laws h start = h
Keeps-IsListMap laws h (set {ds = es} k c p) = laws.set-IsListMap es c (Keeps-IsListMap laws h k)
Keeps-IsListMap laws h (remove {ds = es} k u p) =
    laws.remove-IsListMap es u (Keeps-IsListMap laws h k)

pub Keeps-holds :
    {ops : ConditionOps} {t : String} {cs ds : List Condition}
    → AreConditionOps ops
    → IsListMap cs
    → holds t cs ≡ true
    → Keeps ops t cs ds
    → holds t ds ≡ true
Keeps-holds laws h p start = p
Keeps-holds {t = t} laws h p (set {ds = es} k c q) =
    ground (arith, holds-set laws t es c (Keeps-IsListMap laws h k), Keeps-holds laws h p k)
Keeps-holds {t = t} laws h p (remove {ds = es} k u q) =
    ground (arith, holds-remove laws t u es (Keeps-IsListMap laws h k), Keeps-holds laws h p k)

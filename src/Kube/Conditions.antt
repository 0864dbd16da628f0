-- ===== src/Kube/Conditions.antt =====
-- `metav1.Condition`, and the documented behaviour of `meta.SetStatusCondition` and
-- `meta.RemoveStatusCondition`. The field `LastTransitionTime`, which the library sets by itself
-- and the operator never reads, is left out.
pub mod Found
use meteor_operator.Prelude.{
  ℕ, String, ◌≡◌, ◌≢◌, Bool, Option, none, List, [], ◌∷◌, ◌==◌, All, find, if◌then◌else◌,
}
use mathlib.Core.Option.{some}

pub record Condition : Type 0 where
  pub type : String
  pub status : String
  pub observed_generation : ℕ
  pub reason : String
  pub message : String

abbrev pub condition_true : String
condition_true = "True"

abbrev pub condition_false : String
condition_false = "False"

abbrev pub of_type : String → Condition → Bool
of_type t c = c.type == t

-- The first condition of a type: what `meta.FindStatusCondition` returns.
abbrev pub find_condition : String → List Condition → Option Condition
find_condition t cs = find (of_type t) cs

-- A condition list is a map keyed by the condition type (`listType=map`, `listMapKey=type`).
abbrev pub IsListMap : List Condition → Type 0
IsListMap [] = Unit
IsListMap (c ∷ cs) = All (λ d. d.type ≢ c.type) cs × IsListMap cs

-- The two functions. Their effects through the pointer are the lists that they return.
pub record ConditionOps : Type 0 where
  pub set_status_condition : List Condition → Condition → List Condition
  pub remove_status_condition : List Condition → String → List Condition

-- What their documentation promises, of lists that are keyed by type: setting replaces the
-- condition of that type or adds it, removing drops it, and the other conditions stay.
pub record AreConditionOps (ops : ConditionOps) : Type 0 where
  pub set-IsListMap :
      (cs : List Condition) (c : Condition)
      → IsListMap cs
      → IsListMap (ops.set_status_condition cs c)
  pub find-set :
      (cs : List Condition) (c : Condition) (t : String)
      → IsListMap cs
      → find_condition t (ops.set_status_condition cs c)
        ≡ (if c.type == t then some c else find_condition t cs)
  pub remove-IsListMap :
      (cs : List Condition) (t : String)
      → IsListMap cs
      → IsListMap (ops.remove_status_condition cs t)
  pub find-remove :
      (cs : List Condition) (u t : String)
      → IsListMap cs
      → find_condition t (ops.remove_status_condition cs u)
        ≡ (if u == t then none else find_condition t cs)

-- ===== src/Meteor/Reconcile/Phase.antt =====
-- The conditions that a reconciliation's loop over the pipelines leaves, and the phase that the next
-- reconciliation makes of them.
pub mod Loop
use mathlib.Core.List.{Memᴰ}
use mathlib.Core.Path.{subst}
use Prim.Native.String
use text.Mathlib.TextLemmas.{append-nil, append_cancel_left}
use text.Mathlib.TextPositions.{starts_with-append}
use meteor_operator.Prelude.{
  ℕ, String, ◌≡◌, ◌≢◌, ◌↔◌, ◌⊎◌, refl, sym, ap, ◌∙◌, Bool, true, false, not, ◌&&◌, ◌||◌, Option,
  none, some, some-injective, List, [], ◌∷◌, ◌==◌, All, arith, eq_iff, eq_refl, text-cases,
  Bool-cases, inl, inr, is_empty, starts_with, sprintf, find, if◌then◌else◌,
}
use meteor_operator.Kube.Meta.{Time, NamespacedName}
use meteor_operator.Kube.Conditions.{
  Condition, find_condition, IsListMap, AreConditionOps, condition_false,
}
use meteor_operator.Kube.Client.{ok, Outcome, done, ◌>>=◌}
use meteor_operator.Kube.Library.{Library}
use meteor_operator.Tekton.{PipelineRun, RunCondition, ArrayOrString}
use meteor_operator.Api.Common.{succeeded}
use meteor_operator.Api.Meteor.{Meteor, aggregate_phase}
use meteor_operator.Api.Meteor.Laws.{settled, aggregate_phase-eq-succeeded_iff}
use meteor_operator.Kube.Conditions.Found.{found-All, All-found}
use meteor_operator.Meteor.State.{Reconciler, Api, Step}
use meteor_operator.Meteor.Title.{title}
use meteor_operator.Meteor.Build.{Json, resource_name, status_index}
use meteor_operator.Meteor.Run.{
  with_index, copy_condition, observe_stage, observe_run, after_get, observed,
  reconcile_pipeline_run,
}
use meteor_operator.Meteor.Reconcile.{continue, reconcile_pipelines}

-- The type of a pipeline's condition.
abbrev pub run_type : String → String
run_type name = sprintf ("PipelineRun" ∷ title name ∷ [])

-- The condition that is made of the first condition of the pipeline's run.
abbrev pub condition_of : (generation : ℕ) → String → RunCondition → Condition
condition_of generation name c = record {
  type = run_type name;
  status = c.status;
  observed_generation = generation;
  reason = c.reason;
  message = c.message;
}

-- The run has passed, by its first condition.
abbrev pub passed : RunCondition → Bool
passed c = not (c.status == condition_false) && (c.reason == "Succeeded" || c.reason == "Completed")

condition_of-settled :
    (generation : ℕ) (name : String) (c : RunCondition)
    → settled (condition_of generation name c) ≡ passed c
unfolding sprintf
condition_of-settled generation name c =
    rw (starts_with-append "PipelineRun" (String.◌++◌ (title name) "")) refl

-- Two pipelines have different conditions.
abbrev pub HaveTitles : List String → Type 0
HaveTitles [] = Unit
HaveTitles (n ∷ ns) = All (λ m. run_type m ≢ run_type n) ns × HaveTitles ns

All-at : (P : String → Type 0) (names : List String) (n : String) → All P names → Memᴰ n names → P n
All-at P [] n ps d = elim d [ ]
All-at P (m ∷ names) n (p, ps) (Memᴰ.head e) = subst P (sym e) p
All-at P (m ∷ names) n (p, ps) (Memᴰ.tail d) = All-at P names n ps d

-- A type of condition belongs to one of the pipelines, or to none.
type-cases :
    (t : String) (names : List String)
    → ((n : String) × Memᴰ n names × (run_type n ≡ t)) ⊎ All (λ n. run_type n ≢ t) names
type-cases t [] = inr tt
type-cases t (n ∷ names) = elim (text-cases (run_type n) t) [
  | inl e ↦ inl (n, Memᴰ.head refl, e)
  | inr d ↦ elim (type-cases t names) [
    | inl (m, i, e) ↦ inl (m, Memᴰ.tail i, e)
    | inr ds ↦ inr (d, ds)
  ]
]

-- Among the conditions there are only those of the pipelines.
abbrev pub AreOf : List String → List Condition → Type 0
AreOf names cs =
    (t : String) (c : Condition)
    → find_condition t cs ≡ some c
    → (n : String) × Memᴰ n names × (run_type n ≡ t)

nonempty :
    (cs : List Condition) (t : String) (c : Condition)
    → find_condition t cs ≡ some c
    → is_empty cs ≡ false
nonempty [] t c h = cc
nonempty (d ∷ cs) t c h = refl

module _ (lib : Library) (generation : ℕ) (shown : String → RunCondition) where
  -- The conditions after the loop.
  unfoldable pub noted : List String → List Condition → List Condition
  noted [] cs = cs
  noted (n ∷ names) cs =
      noted names (lib.set_status_condition cs (condition_of generation n (shown n)))

module _ (lib : Library) (laws : AreConditionOps lib.conditions) (generation : ℕ)
    (shown : String → RunCondition) where
  noted-IsListMap :
      (names : List String) (cs : List Condition)
      → IsListMap cs
      → IsListMap (noted lib generation shown names cs)
  unfolding noted
  noted-IsListMap [] cs k = k
  noted-IsListMap (n ∷ names) cs k = noted-IsListMap names _ (laws.set-IsListMap cs _ k)

  find-noted_other :
      (t : String) (names : List String) (cs : List Condition)
      → IsListMap cs
      → All (λ n. run_type n ≢ t) names
      → find_condition t (noted lib generation shown names cs) ≡ find_condition t cs
  unfolding noted
  find-noted_other t [] cs k a = refl
  find-noted_other t (n ∷ names) cs k (d, a) =
      let c = condition_of generation n (shown n) in
      find-noted_other t names (lib.set_status_condition cs c) (laws.set-IsListMap cs c k) a
      ∙ laws.find-set cs c t k
      ∙ ground (arith, eq_iff (run_type n) t, d)

  find-noted :
      (names : List String) (cs : List Condition)
      → IsListMap cs
      → HaveTitles names
      → All
          (λ n.
            find_condition (run_type n) (noted lib generation shown names cs)
            ≡ some (condition_of generation n (shown n)))
          names
  unfolding noted
  find-noted [] cs k a = tt
  find-noted (n ∷ names) cs k (d, a) =
      let c = condition_of generation n (shown n) in
      let k' = laws.set-IsListMap cs c k in
      (
        find-noted_other (run_type n) names (lib.set_status_condition cs c) k' d
            ∙ laws.find-set cs c (run_type n) k
            ∙ ap (λ b. if b then some c else find_condition (run_type n) cs) (eq_refl (run_type n)),
        find-noted names (lib.set_status_condition cs c) k' a,
      )

  found-noted :
      (names : List String) (cs : List Condition) (t : String) (c : Condition)
      → IsListMap cs
      → HaveTitles names
      → AreOf names cs
      → find_condition t (noted lib generation shown names cs) ≡ some c
      → (n : String) × Memᴰ n names × (c ≡ condition_of generation n (shown n))
  found-noted names cs t c k titles own h = elim (type-cases t names) [
    | inl (n, i, e) ↦ (
      n,
      i,
      some-injective (
          sym h
          ∙ ap (λ u. find_condition u (noted lib generation shown names cs)) (sym e)
          ∙ All-at
              (λ n.
                find_condition (run_type n) (noted lib generation shown names cs)
                ≡ some (condition_of generation n (shown n)))
              names n (find-noted names cs k titles) i),
    )
    | inr other ↦
        let (n, i, e) = own t c (sym (find-noted_other t names cs k other) ∙ h) in
        absurd (All-at (λ n. run_type n ≢ t) names n other i e)
  ]

  every_passed :
      (names seen : List String) (cs : List Condition)
      → IsListMap cs
      → HaveTitles names
      → All (λ c. settled c ≡ true) (noted lib generation shown names cs)
      → ((n : String) → Memᴰ n seen → Memᴰ n names)
      → All (λ n. passed (shown n) ≡ true) seen
  every_passed names [] cs k titles a sub = tt
  every_passed names (n ∷ seen) cs k titles a sub = (
    sym (condition_of-settled generation n (shown n))
        ∙ found-All (λ c. settled c ≡ true) (noted lib generation shown names cs) (run_type n) _ a
            (All-at
              (λ n.
                find_condition (run_type n) (noted lib generation shown names cs)
                ≡ some (condition_of generation n (shown n)))
              names n (find-noted names cs k titles) (sub n (Memᴰ.head refl))),
    every_passed names seen cs k titles a (λ m d. sub m (Memᴰ.tail d)),
  )

  -- All conditions are settled exactly when the runs of all pipelines have passed.
  pub noted-settled_iff :
      (names : List String) (cs : List Condition)
      → IsListMap cs
      → HaveTitles names
      → AreOf names cs
      → All (λ c. settled c ≡ true) (noted lib generation shown names cs)
        ↔ All (λ n. passed (shown n) ≡ true) names
  noted-settled_iff names cs k titles own = (
    (λ a. every_passed names names cs k titles a (λ n d. d)),
    (λ a.
        All-found (λ c. settled c ≡ true) (noted lib generation shown names cs)
          (noted-IsListMap names cs k)
          (λ t c h.
            let (n, i, e) = found-noted names cs t c k titles own h in
            ap settled e
            ∙ condition_of-settled generation n (shown n)
            ∙ All-at (λ n. passed (shown n) ≡ true) names n a i)),
  )

  pub noted-nonempty :
      (n : String) (names : List String) (cs : List Condition)
      → IsListMap cs
      → HaveTitles (n ∷ names)
      → is_empty (noted lib generation shown (n ∷ names) cs) ≡ false
  noted-nonempty n names cs k titles =
      nonempty (noted lib generation shown (n ∷ names) cs) (run_type n) _
        (find-noted (n ∷ names) cs k titles).0

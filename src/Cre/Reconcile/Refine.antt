-- ===== src/Cre/Reconcile/Refine.antt =====
-- The reconciliation of a CustomRuntimeEnvironment refines the machine of Cre.Machine.
use mathlib.Core.Path.{subst}
use meteor_operator.Prelude.{
  ◌≡◌, refl, sym, ◌∙◌, List, [], ◌∷◌, Bool-cases, inl, inr, if◌then◌else◌,
}
use meteor_operator.Kube.Conditions.{IsListMap, AreConditionOps}
use meteor_operator.Kube.Client.{Result, ok, err, Ends, Ends-done, Ends-of, Ends-bind}
use meteor_operator.Kube.Library.{Library}
use meteor_operator.Tekton.{PipelineRun, RunCondition}
use meteor_operator.Api.Cre.{CustomRuntimeEnvironment}
use meteor_operator.Api.Cre.Aggregate.{aggregate_phase_lem}
use meteor_operator.Cre.Build.{run_name, run_meta, params, desired_run, status_index}
use meteor_operator.Cre.Machine.{
  Facts, Event, accepted, refused, unreadable, unsettled, step, decide,
}
use meteor_operator.Cre.Reconcile.{
  Api, DeepEqual, after_create, create_run, submitted, with_index, with_phase, with_generation,
  after_get, run_key, reconcile_pipeline_run, refresh,
}
use meteor_operator.Cre.Reconcile.Conditions.{observed_conditions, observe_run-conditions}
use meteor_operator.Cre.Reconcile.Phase.{refresh-IsFresh}
use meteor_operator.Cre.Reconcile.Facts.{
  facts, phase_of-decide, verdict, Records, set-Records, on_condition-Records,
}

-- What the run's conditions say.
abbrev pub seen_of : PipelineRun → List RunCondition → Event
seen_of run [] = unsettled
seen_of run (c ∷ _) = verdict run c

abbrev created_of : Result PipelineRun → Event
created_of (ok _) = accepted
created_of (err _) = refused

-- The event behind the answers to `Get` and, when it finds nothing, to `Create`.
abbrev pub event_of : Result PipelineRun → Result PipelineRun → Event
event_of (ok run) created = seen_of run run.status.conditions
event_of (err e) created = if e.not_found then created_of created else unreadable

module _ {W : Type 0} (lib : Library) (api : Api W) (laws : AreConditionOps lib.conditions)
    (cre : CustomRuntimeEnvironment) (f : Facts) (kept : Records cre.status.conditions f) where
  -- The conditions of a result.
  abbrev Now : Facts → CustomRuntimeEnvironment × W → Type 0
  Now g x = Records x.0.status.conditions g

  observed-Records :
      (run : PipelineRun) (cs : List RunCondition)
      → Records (observed_conditions lib (with_index cre) cs run) (step (seen_of run cs) f)
  unfolding observed_conditions
  observed-Records run [] = kept
  observed-Records run (c ∷ _) = on_condition-Records laws (with_index cre) run f c kept

  after_create-Records :
      (run : PipelineRun) (r : Result PipelineRun)
      → Records
          (after_create lib api (with_index cre) run r).status.conditions
          (step (created_of r) f)
  unfolding after_create
  after_create-Records run (ok created) = set-Records laws _ f _ kept
  after_create-Records run (err e) = set-Records laws _ _ _ (set-Records laws _ f _ kept)

  after_get-Records :
      (r : Result PipelineRun) (w : W)
      → Ends
          (Now (step (event_of r (api.pipeline_runs.create (submitted lib api cre) w).0) f))
          (after_get lib api cre r w)
  unfolding after_get create_run submitted desired_run run_meta params run_name
  after_get-Records (ok run) w =
      Ends-bind (Now (step (seen_of run run.status.conditions) f)) _ _ (λ seen found.
        subst (λ cs. Records cs (step (seen_of run run.status.conditions) f))
          (sym (observe_run-conditions lib (with_index cre) (status_index cre).0 run found))
          (observed-Records run run.status.conditions))
  after_get-Records (err e) w = elim (Bool-cases e.not_found) [
    | inl p ↦ rw p (after_create-Records _ _)
    | inr p ↦ rw p (set-Records laws _ f _ kept)
  ]

-- What the machine is told when the resource is reconciled.
abbrev pub event : {W : Type 0} → Library → Api W → CustomRuntimeEnvironment → W → Event
event lib api cre w =
    let (r, w') = api.pipeline_runs.get (run_key cre) w in
    event_of r (api.pipeline_runs.create (submitted lib api cre) w').0

module _ {W : Type 0} (lib : Library) (api : Api W) (laws : AreConditionOps lib.conditions) where
  reconcile_pipeline_run-Records :
      (cre : CustomRuntimeEnvironment) (w : W) (f : Facts)
      → Records cre.status.conditions f
      → Ends
          (λ (x : CustomRuntimeEnvironment × W).
            Records x.0.status.conditions (step (event lib api cre w) f))
          (reconcile_pipeline_run lib api cre w)
  unfolding reconcile_pipeline_run run_key
  reconcile_pipeline_run-Records cre w f kept = after_get-Records lib api laws cre f kept _ _

module _ {W : Type 0} (lib : Library) (api : Api W) (eq : DeepEqual)
    (laws : AreConditionOps lib.conditions) where
  -- What the machine's step is, and the phase of its facts.
  abbrev pub Refines : CustomRuntimeEnvironment → W → CustomRuntimeEnvironment × W → Type 0
  Refines cre w x =
      Records x.0.status.conditions (step (event lib api cre w) (facts cre.status.conditions))
      × (x.0.status.phase ≡ decide (facts x.0.status.conditions))

  refresh-Records :
      (cre : CustomRuntimeEnvironment) (w : W)
      → IsListMap cre.status.conditions
      → Ends
          (λ (x : CustomRuntimeEnvironment × W).
            Records x.0.status.conditions
              (step (event lib api cre w) (facts cre.status.conditions)))
          (refresh lib api eq cre w)
  unfolding refresh run_key submitted desired_run run_meta params run_name
  refresh-Records cre w keyed =
      Ends-bind _ (reconcile_pipeline_run lib api (with_phase cre) w) _ (λ x found.
        rw (eq.distinct_types (with_generation x.0).status cre.status) (
          Ends-done _ _
            (reconcile_pipeline_run-Records lib api laws (with_phase cre) w
              (facts cre.status.conditions) (keyed, refl))
            found))

  -- A refresh that does not panic is a step of the machine, for the event that the answers to `Get`
  -- and `Create` amount to, and leaves the phase that the machine decides on; the conditions, which
  -- are keyed by type before it, are so after it.
  pub refresh-Refines :
      (cre : CustomRuntimeEnvironment) (w : W)
      → IsListMap cre.status.conditions
      → Ends (Refines cre w) (refresh lib api eq cre w)
  refresh-Refines cre w keyed = Ends-of (Refines cre w) (refresh lib api eq cre w) (λ x found. (
    Ends-done _ _ (refresh-Records cre w keyed) found,
    (Ends-done _ _ (refresh-IsFresh lib api eq cre w) found).0
        ∙ aggregate_phase_lem x.0
        ∙ phase_of-decide x.0.status.conditions,
  ))

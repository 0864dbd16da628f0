-- ===== src/Cre/Reconcile/Phase.antt =====
-- The phase that a reconciliation leaves, and that an error at creation is final.
use meteor_operator.Prelude.{ℕ, ◌≡◌, refl, sym, ap, ◌∙◌, arith}
use meteor_operator.Kube.Client.{Result, ok, err, Ends, Ends-done, Ends-if, Ends-bind}
use meteor_operator.Kube.Meta.{ObjectMeta}
use meteor_operator.Kube.Library.{Library}
use meteor_operator.Tekton.{PipelineRun}
use meteor_operator.Api.Cre.{CustomRuntimeEnvironment, aggregate_phase}
use meteor_operator.Api.Cre.Aggregate.{aggregate_phase_lem}
use meteor_operator.Cre.Build.{status_index}
use meteor_operator.Cre.Observe.{on_completion, observe_run}
use meteor_operator.Cre.Reconcile.{
  Api, DeepEqual, after_create, create_run, with_index, with_phase, with_generation, after_get,
  reconcile_pipeline_run, refresh,
}

-- The object apart from its status.
abbrev pub SameObject : CustomRuntimeEnvironment → CustomRuntimeEnvironment → Type 0
SameObject a b = (a.type_meta ≡ b.type_meta) × (a.meta ≡ b.meta) × (a.spec ≡ b.spec)

module _ {W : Type 0} (lib : Library) (api : Api W) where
  module _ (cre : CustomRuntimeEnvironment) where
    abbrev SameAfter : CustomRuntimeEnvironment × W → Type 0
    SameAfter x = SameObject x.0 cre

    after_create-SameObject :
        (run : PipelineRun) (r : Result PipelineRun)
        → SameObject (after_create lib api (with_index cre) run r) cre
    unfolding after_create
    after_create-SameObject run (ok created) = (refl, refl, refl)
    after_create-SameObject run (err e) = (refl, refl, refl)

    observe_run-SameObject :
        (index : ℕ) (run : PipelineRun)
        → Ends (λ c. SameObject c cre) (observe_run lib.conditions (with_index cre) index run)
    unfolding observe_run on_completion
    observe_run-SameObject index run = ground arith

    after_get-SameObject :
        (r : Result PipelineRun) (w : W) → Ends SameAfter (after_get lib api cre r w)
    unfolding after_get create_run
    after_get-SameObject (err e) w =
        Ends-if SameAfter e.not_found _ _ (after_create-SameObject _ _) (refl, refl, refl)
    after_get-SameObject (ok run) w = Ends-bind SameAfter _ _ (λ seen found.
        Ends-done (λ c. SameObject c cre) _ (observe_run-SameObject (status_index cre).0 run) found)

    pub reconcile_pipeline_run-SameObject :
        (w : W) → Ends SameAfter (reconcile_pipeline_run lib api cre w)
    unfolding reconcile_pipeline_run
    reconcile_pipeline_run-SameObject w = after_get-SameObject _ _

  module _ (eq : DeepEqual) (cre : CustomRuntimeEnvironment) where
    -- What the status update is given: the phase agrees with the conditions, the generation is the
    -- one observed, and nothing but the status has changed.
    abbrev pub IsFresh : CustomRuntimeEnvironment × W → Type 0
    IsFresh x =
        (x.0.status.phase ≡ aggregate_phase x.0)
        × (x.0.status.observed_generation ≡ cre.meta.generation)
        × SameObject x.0 cre

    fresh :
        (seen : CustomRuntimeEnvironment) (w : W)
        → SameObject seen cre
        → IsFresh (with_phase (with_generation seen), w)
    fresh seen w same = (
      aggregate_phase_lem (with_generation seen)
          ∙ sym (aggregate_phase_lem (with_phase (with_generation seen))),
      ap (λ (m : ObjectMeta). m.generation) same.1,
      same,
    )

    -- A refresh that does not panic changes nothing of the resource but its status, writes the
    -- generation, and leaves the phase that `AggregatePhase` gives for the new status: the comparison of
    -- a struct with a pointer never holds, so the phase is always recomputed.
    pub refresh-IsFresh : (w : W) → Ends IsFresh (refresh lib api eq cre w)
    unfolding refresh
    refresh-IsFresh w =
        Ends-bind IsFresh (reconcile_pipeline_run lib api (with_phase cre) w) _ (λ x found.
          rw (eq.distinct_types (with_generation x.0).status cre.status) (
            fresh x.0 x.1
              (Ends-done _ _ (reconcile_pipeline_run-SameObject (with_phase cre) w) found)))

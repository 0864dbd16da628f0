-- ===== src/Cre/Reconcile/Branches.antt =====
-- How each branch of a reconciliation shows in the phase.
use meteor_operator.Prelude.{String, ◌≡◌, ◌∙◌, true, false, ◌==◌, if◌then◌else◌}
use meteor_operator.Kube.Conditions.{IsListMap, AreConditionOps, condition_true}
use meteor_operator.Kube.Client.{Error, Result, ok, err, done, ◌>>=◌}
use meteor_operator.Kube.Library.{Library}
use meteor_operator.Tekton.{PipelineRun}
use meteor_operator.Api.Common.{Phase, failed, running}
use meteor_operator.Api.Cre.{
  CustomRuntimeEnvironment, error_pipeline_run_create, pipeline_run_created, image_import_invalid,
  aggregate_phase,
}
use meteor_operator.Api.Cre.Aggregate.{
  holds, phase_of, aggregate_phase_lem, phase_of-failed, phase_of-running,
}
use meteor_operator.Cre.Build.{run_name, run_meta, desired_run, params, status_index}
use meteor_operator.Cre.Observe.{condition, observe_run}
use meteor_operator.Cre.Conditions.{holds-set}
use meteor_operator.Cre.Reconcile.{
  Api, DeepEqual, after_create, submitted, create_run, with_index, with_phase, with_generation,
  after_get, run_key, reconcile_pipeline_run, refresh,
}

module _ {W : Type 0} (lib : Library) (api : Api W) (eq : DeepEqual)
    (cre : CustomRuntimeEnvironment) where
  -- What is written back when the run's reconciliation has ended with `seen`.
  pub refresh_lem :
      (w : W) {seen : CustomRuntimeEnvironment} {w' : W}
      → reconcile_pipeline_run lib api (with_phase cre) w ≡ done (seen, w')
      → refresh lib api eq cre w ≡ done (with_phase (with_generation seen), w')
  unfolding refresh
  refresh_lem w {seen} h = rw (h, ◌>>=◌, eq.distinct_types (with_generation seen).status cre.status)

  pub reconcile_create :
      (w w' w'' : W) (e : Error) (r : Result PipelineRun)
      → api.pipeline_runs.get (run_key cre) w ≡ (err e, w')
      → e.not_found ≡ true
      → api.pipeline_runs.create (submitted lib api cre) w' ≡ (r, w'')
      → reconcile_pipeline_run lib api (with_phase cre) w
        ≡ done (after_create lib api (with_index (with_phase cre)) (submitted lib api cre) r, w'')
  unfolding reconcile_pipeline_run run_key run_name create_run submitted desired_run run_meta params
      after_get after_create
  reconcile_create w w' w'' e r got missing created = rw (got, after_get, missing, created)

  pub reconcile_found :
      (w w' : W) (run : PipelineRun) {seen : CustomRuntimeEnvironment}
      → api.pipeline_runs.get (run_key cre) w ≡ (ok run, w')
      → observe_run lib.conditions
          (with_index (with_phase cre))
          (status_index (with_phase cre)).0
          run
        ≡ done seen
      → reconcile_pipeline_run lib api (with_phase cre) w ≡ done (seen, w')
  unfolding reconcile_pipeline_run run_key run_name after_get
  reconcile_found w w' run got observed = rw (got, after_get, observed)

-- What the conditions say of the phase and of the run.
abbrev pub Reports : CustomRuntimeEnvironment → Phase → Type 0
Reports c p = (c.status.phase ≡ p) × (aggregate_phase c ≡ p)

pub reports :
    (seen : CustomRuntimeEnvironment) (p : Phase)
    → phase_of seen.status.conditions ≡ p
    → Reports (with_phase (with_generation seen)) p
reports seen p h = (
  aggregate_phase_lem (with_generation seen) ∙ h,
  aggregate_phase_lem (with_phase (with_generation seen)) ∙ h,
)

module _ {W : Type 0} (lib : Library) (api : Api W) (laws : AreConditionOps lib.conditions) where
  open lib use {set_status_condition, remove_status_condition}

  after_create-refused :
      (cre : CustomRuntimeEnvironment) (run : PipelineRun) (e : Error)
      → IsListMap cre.status.conditions
      → let cs = (after_create lib api cre run (err e)).status.conditions in
        (holds error_pipeline_run_create cs ≡ true) × (holds pipeline_run_created cs ≡ true)
  unfolding after_create
  after_create-refused cre run e keyed =
      let once = set_status_condition cre.status.conditions (
        condition cre error_pipeline_run_create condition_true "PipelineRunCreateFailed"
          e.message) in
      let keyed_once = laws.set-IsListMap cre.status.conditions _ keyed in
      (
        holds-set laws error_pipeline_run_create once _ keyed_once
            ∙ holds-set laws error_pipeline_run_create cre.status.conditions _ keyed,
        holds-set laws pipeline_run_created once _ keyed_once,
      )

  -- When the run is missing and its creation is refused, the phase is Failed; the conditions say
  -- both that the creation has failed and that the run has been created.
  pub refresh-create_refused :
      (eq : DeepEqual) (cre : CustomRuntimeEnvironment) (w w' w'' : W) (e refusal : Error)
      → IsListMap cre.status.conditions
      → api.pipeline_runs.get (run_key cre) w ≡ (err e, w')
      → e.not_found ≡ true
      → api.pipeline_runs.create (submitted lib api cre) w' ≡ (err refusal, w'')
      → (c : CustomRuntimeEnvironment) × (refresh lib api eq cre w ≡ done (c, w''))
        × Reports c failed
        × (holds error_pipeline_run_create c.status.conditions ≡ true)
        × (holds pipeline_run_created c.status.conditions ≡ true)
  refresh-create_refused eq cre w w' w'' e refusal keyed got missing refused =
      let seen =
        after_create lib api (with_index (with_phase cre)) (submitted lib api cre) (err refusal) in
      let (error, created) =
        after_create-refused (with_index (with_phase cre)) (submitted lib api cre) refusal keyed in
      (
        with_phase (with_generation seen),
        refresh_lem lib api eq cre w
            (reconcile_create lib api eq cre w w' w'' e (err refusal) got missing refused),
        reports seen failed (phase_of-failed seen.status.conditions error),
        error,
        created,
      )

  after_create-accepted :
      (cre : CustomRuntimeEnvironment) (run created : PipelineRun) (t : String)
      → IsListMap cre.status.conditions
      → holds t (after_create lib api cre run (ok created)).status.conditions
        ≡ (if pipeline_run_created == t then true else holds t cre.status.conditions)
  unfolding after_create
  after_create-accepted cre run created t keyed = holds-set laws t cre.status.conditions _ keyed

  -- When the run is missing and is created, the refresh returns with the phase Running and with the
  -- cluster as `Create` left it. The resource's conditions are keyed by type and record no error.
  pub refresh-created :
      (eq : DeepEqual) (cre : CustomRuntimeEnvironment) (w w' w'' : W) (e : Error)
      (created : PipelineRun)
      → IsListMap cre.status.conditions
      → holds error_pipeline_run_create cre.status.conditions ≡ false
      → holds image_import_invalid cre.status.conditions ≡ false
      → api.pipeline_runs.get (run_key cre) w ≡ (err e, w')
      → e.not_found ≡ true
      → api.pipeline_runs.create (submitted lib api cre) w' ≡ (ok created, w'')
      → (c : CustomRuntimeEnvironment) × (refresh lib api eq cre w ≡ done (c, w''))
        × Reports c running
  refresh-created eq cre w w' w'' e created keyed no_error valid got missing accepted =
      let seen =
        after_create lib api (with_index (with_phase cre)) (submitted lib api cre) (ok created) in
      let now = λ (t : String).
        after_create-accepted (with_index (with_phase cre)) (submitted lib api cre) created t
          keyed in
      (
        with_phase (with_generation seen),
        refresh_lem lib api eq cre w
            (reconcile_create lib api eq cre w w' w'' e (ok created) got missing accepted),
        reports seen running (
            phase_of-running seen.status.conditions (now pipeline_run_created)
              (now error_pipeline_run_create ∙ no_error) (now image_import_invalid ∙ valid)),
      )

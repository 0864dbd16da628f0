-- ===== src/Cre/Reconcile.antt =====
-- controllers/cre/controller.go: `Reconcile` and `reconcilePipelineRun`.
pub mod Conditions
pub mod Phase
pub mod Life
pub mod Branches
pub mod Ended
pub mod Outcomes
pub mod Results
pub mod Facts
pub mod Refine
pub mod Trace
pub mod Once
pub mod Confined
use meteor_operator.Prelude.{
  ◌≡◌, Bool, false, not, Option, none, some, [], ◌∷◌, sprintf, if◌then◌else◌,
}
use meteor_operator.Kube.Meta.{NamespacedName, is_unset}
use meteor_operator.Kube.Conditions.{condition_true}
use meteor_operator.Kube.Client.{
  Error, Result, ok, err, Resource, Outcome, done, ◌>>=◌, Requeue, no_requeue,
}
use meteor_operator.Kube.Library.{Library}
use meteor_operator.Tekton.{PipelineRun}
use meteor_operator.Api.Cre.{
  CreStatus, CustomRuntimeEnvironment, pipeline_run_created, error_pipeline_run_create,
  generic_pipeline_error, aggregate_phase,
}
use meteor_operator.Cre.Build.{run_name, run_meta, status_index, desired_run}
use meteor_operator.Cre.Observe.{condition, with_conditions, observe_run}

-- The two arguments of `equality.Semantic.DeepEqual(CRE.Status, oldStatus)` are interface values: a
-- struct, and the pointer that `DeepCopy` returned.
pub data StatusValue : Type 0 where
  struct : CreStatus → StatusValue
  pointer : CreStatus → StatusValue

-- `Semantic.DeepEqual`, and what its documentation says: values of distinct types are never equal.
pub record DeepEqual : Type 0 where
  pub deep_equal : StatusValue → StatusValue → Bool
  pub distinct_types : (s t : CreStatus) → deep_equal (struct s) (pointer t) ≡ false

-- What the operator's client gives this controller.
pub record Api (W : Type 0) : Type 0 where
  pub cres : Resource W CustomRuntimeEnvironment
  pub pipeline_runs : Resource W PipelineRun

-- The status with the index appended, the aggregated phase, or the generation written into it.
abbrev pub with_index : CustomRuntimeEnvironment → CustomRuntimeEnvironment
with_index cre = record cre { status = record cre.status { pipelines = (status_index cre).1 } }

abbrev pub with_phase : CustomRuntimeEnvironment → CustomRuntimeEnvironment
with_phase cre = record cre { status = record cre.status { phase = aggregate_phase cre } }

abbrev pub with_generation : CustomRuntimeEnvironment → CustomRuntimeEnvironment
with_generation cre = record cre {
  status = record cre.status { observed_generation = cre.meta.generation };
}

-- `namespacedName` of the run
pub run_key : CustomRuntimeEnvironment → NamespacedName
run_key cre = record { name = run_name cre; namespace = cre.meta.namespace }

module _ {W : Type 0} (lib : Library) (api : Api W) where
  open lib use {set_status_condition, set_controller_reference}

  -- After `Create`: the branch for an error does not return.
  pub after_create :
      CustomRuntimeEnvironment → PipelineRun → Result PipelineRun → CustomRuntimeEnvironment
  after_create cre run (ok created) = with_conditions cre (
      set_status_condition cre.status.conditions (
        condition cre pipeline_run_created condition_true "PipelineRunCreated"
          (sprintf (created.meta.name ∷ " PipelineRun created successfully" ∷ []))))
  after_create cre run (err e) =
      let failed = set_status_condition cre.status.conditions (
        condition cre error_pipeline_run_create condition_true "PipelineRunCreateFailed"
          e.message) in
      with_conditions cre (
        set_status_condition failed (
          condition cre pipeline_run_created condition_true "PipelineRunCreated"
            (sprintf (run.meta.name ∷ " PipelineRun created successfully" ∷ []))))

  -- The run as it is handed to `Create`.
  pub submitted : CustomRuntimeEnvironment → PipelineRun
  submitted cre = record (desired_run cre) {
    meta = set_controller_reference cre.type_meta cre.meta (run_meta cre);
  }

  pub create_run : CustomRuntimeEnvironment → W → CustomRuntimeEnvironment × W
  create_run cre w =
      let (r, w') = api.pipeline_runs.create (submitted cre) w in
      (after_create cre (submitted cre) r, w')

  -- The branches on what `Get` returned.
  pub after_get :
      CustomRuntimeEnvironment → Result PipelineRun → W → Outcome (CustomRuntimeEnvironment × W)
  after_get cre (err e) w =
      if e.not_found
      then done (create_run (with_index cre) w)
      else done (
        with_conditions (with_index cre) (
            set_status_condition cre.status.conditions (
              condition cre generic_pipeline_error condition_true "PipelineRunGenericError"
                e.message)),
        w,
      )
  after_get cre (ok run) w = do
    cre' ← observe_run lib.conditions (with_index cre) (status_index cre).0 run
    done (cre', w)

  pub reconcile_pipeline_run : CustomRuntimeEnvironment → W → Outcome (CustomRuntimeEnvironment × W)
  reconcile_pipeline_run cre w =
      let (r, w') =
        api.pipeline_runs.get (record { name = run_name cre; namespace = cre.meta.namespace }) w in
      after_get cre r w'

  module _ (eq : DeepEqual) where
    -- `Reconcile` between the check for deletion and the status update.
    pub refresh : CustomRuntimeEnvironment → W → Outcome (CustomRuntimeEnvironment × W)
    refresh cre w = do
      (reconciled, w') ← reconcile_pipeline_run (with_phase cre) w
      let observed = with_generation reconciled
      done (
        if not (eq.deep_equal (struct observed.status) (pointer cre.status))
            then with_phase observed
            else observed,
        w',
      )

    abbrev error_of : Result CustomRuntimeEnvironment → Option Error
    error_of (ok _) = none
    error_of (err e) = some e

    abbrev update_status : CustomRuntimeEnvironment × W → Outcome ((Requeue × Option Error) × W)
    update_status (cre, w) =
        let (r, w') = api.cres.update_status cre w in done ((no_requeue, error_of r), w')

    -- The branches on what `Get` returned for the resource itself.
    pub on_resource : Result CustomRuntimeEnvironment → W → Outcome ((Requeue × Option Error) × W)
    on_resource (err e) w = done ((no_requeue, if e.not_found then none else some e), w)
    on_resource (ok cre) w =
        if not (is_unset cre.meta.deletion_timestamp)
        then done ((no_requeue, none), w)
        else do result ← refresh cre w; update_status result

    pub reconcile : NamespacedName → W → Outcome ((Requeue × Option Error) × W)
    reconcile req w = let (r, w') = api.cres.get req w in on_resource r w'

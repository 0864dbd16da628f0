-- ===== src/Cre/Observe.antt =====
-- controllers/cre/controller.go, lines 281 to 372: what the controller reads off a PipelineRun.
use meteor_operator.Prelude.{
  ℕ, zero, String, ◌&&◌, none, some, List, [], ◌∷◌, ◌==◌, map_get, or_empty, get_elem?, modify,
  if◌then◌else◌,
}
use meteor_operator.Kube.Conditions.{Condition, ConditionOps, condition_true, condition_false}
use meteor_operator.Kube.Client.{Outcome, done, panic}
use meteor_operator.Tekton.{param_string, param_array, ArrayOrString, PipelineRun, RunCondition}
use meteor_operator.Api.Common.{PipelineResult}
use meteor_operator.Api.Cre.{
  CustomRuntimeEnvironment, pipeline_run_created, image_import_ready, package_list_build_completed,
  error_building_image, pipeline_run_completed,
}
use meteor_operator.Cre.Build.{pipeline_label}

-- A condition of the resource's generation, as the controller writes them.
abbrev pub condition : CustomRuntimeEnvironment → (type status reason message : String) → Condition
condition cre type status reason message = record {
  type = type;
  status = status;
  observed_generation = cre.meta.generation;
  reason = reason;
  message = message;
}

-- `&cre.Status.Conditions` changed.
abbrev pub with_conditions : CustomRuntimeEnvironment → List Condition → CustomRuntimeEnvironment
with_conditions cre cs = record cre { status = record cre.status { conditions = cs } }

-- `pipelineRun.Labels["cre.thoth-station.ninja/pipeline"]`
abbrev pub label_of : PipelineRun → String
label_of run = or_empty (map_get run.meta.labels pipeline_label)

module _ (ops : ConditionOps) (cre : CustomRuntimeEnvironment) where
  open ops use {set_status_condition, remove_status_condition}

  -- The run has succeeded.
  unfoldable pub on_success : PipelineRun → List Condition → List Condition
  on_success run cs =
      let completed = set_status_condition cs (
        condition cre pipeline_run_completed condition_true "PipelineRunCompleted"
          "The PipelineRun has been completed successfully.") in
      let ended = remove_status_condition completed pipeline_run_created in
      let imported =
        if label_of run == "import"
        then set_status_condition ended (
            condition cre image_import_ready condition_true "ImageImportReady"
              "Import succeeded, the image is ready to be used.")
        else ended in
      if label_of run == "package-list"
      then set_status_condition imported (
          condition cre package_list_build_completed condition_true "PackageListBuildCompleted"
            "Build from Package List succeeded, the image is ready to be used.")
      else imported

  -- The run has failed.
  unfoldable pub on_failure : PipelineRun → List Condition → List Condition
  on_failure run cs =
      let completed = set_status_condition cs (
        condition cre pipeline_run_completed condition_true "PipelineRunCompleted"
          "The PipelineRun has been completed with a failure!") in
      let ended = remove_status_condition completed pipeline_run_created in
      if label_of run == "import"
      then set_status_condition ended (
          condition cre image_import_ready condition_false "ImageImportNotReady"
            "Import failed, this could be due to the repository to import from does not exist or is not accessible")
      else if label_of run == "gitrepo"
      then set_status_condition ended
          (condition cre error_building_image condition_true "ErrorBuildingImage" "Build failed!")
      else if label_of run == "package-list"
      then set_status_condition ended (
          condition cre package_list_build_completed condition_false "PackageListBuildCompleted"
            "Build from Package List failed!")
      else ended

  -- The first condition of the run decides.
  unfoldable pub on_condition : PipelineRun → RunCondition → List Condition
  on_condition run c =
      if c.status == condition_true && c.type == "Succeeded"
      then on_success run cre.status.conditions
      else if c.status == condition_false && c.type == "Succeeded"
      then on_failure run cre.status.conditions
      else cre.status.conditions

-- `if Type == ParamTypeString { Url = StringVal }` for the first of the run's results.
abbrev first_url : List ArrayOrString → PipelineResult → PipelineResult
first_url [] pr = pr
first_url (v ∷ _) pr = elim v.type [
  | param_string ↦ record pr { url = v.string_val }
  | param_array ↦ pr
]

-- `Ready` and `Url` of one pipeline result, by the reason of the run's first condition.
abbrev report : PipelineRun → RunCondition → PipelineResult → PipelineResult
report run c pr =
    if c.reason == "Succeeded"
    then first_url run.status.pipeline_results (record pr { ready = "True" })
    else if c.reason == "Failed"
    then record pr { ready = "False" }
    else pr

-- The block under `pipelineRun.Status.CompletionTime != nil`; `Conditions[0]` panics on an empty
-- slice.
unfoldable pub on_completion :
    CustomRuntimeEnvironment → ℕ → PipelineRun → Outcome CustomRuntimeEnvironment
on_completion cre index run = elim run.status.completion_time [
  | none ↦ done cre
  | some t ↦ elim (get_elem? run.status.conditions zero) [
    | none ↦ panic
    | some c ↦ done (record cre {
      status = record cre.status { pipelines = modify (report run c) index cre.status.pipelines };
    })
  ]
]

-- Everything after a successful `Get`: with a condition in sight the code returns before it looks
-- at the completion time.
unfoldable pub observe_run :
    ConditionOps → CustomRuntimeEnvironment → ℕ → PipelineRun → Outcome CustomRuntimeEnvironment
observe_run ops cre index run = elim run.status.conditions [
  | [] ↦ on_completion cre index run
  | c ∷ _ ↦ done (with_conditions cre (on_condition ops cre run c))
]

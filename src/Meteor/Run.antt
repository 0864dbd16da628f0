-- ===== src/Meteor/Run.antt =====
-- controllers/meteor/pipelinerun_reconciler.go: `ReconcilePipelineRun`.
pub mod Laws
use meteor_operator.Prelude.{
  ℕ, String, ◌||◌, Bool, Option, none, some, List, [], ◌∷◌, ◌==◌, modify, sprintf, if◌then◌else◌,
}
use meteor_operator.Kube.Meta.{Time}
use meteor_operator.Kube.Conditions.{condition_true, condition_false}
use meteor_operator.Kube.Client.{Error, Result, ok, err, Outcome, done, panic}
use meteor_operator.Kube.Library.{Library}
use meteor_operator.Tekton.{
  param_string, param_array, ArrayOrString, PipelineRun, PipelineRunStatus, RunCondition,
}
use meteor_operator.Api.Common.{PipelineResult, ComponentStatus}
use meteor_operator.Api.Shower.{Shower}
use meteor_operator.Meteor.Slices.{append_unique, remove}
use meteor_operator.Meteor.State.{Reconciler, Api, Step, with_status, set_condition}
use meteor_operator.Meteor.Build.{Json, resource_name, status_index, owner_references, desired_run}

-- `r.Meteor.Status.Pipelines` with the result of a pipeline in it.
abbrev pub with_index : Reconciler → String → Reconciler
with_index r name =
    with_status r (record r.meteor.status { pipelines = (status_index r.meteor name).1 })

-- The three lists of names of runs, and the results, that observing a run changes.
abbrev pub with_progress : Reconciler → ComponentStatus → List PipelineResult → Reconciler
with_progress r stage prs =
    with_status r (record r.meteor.status { stage = stage; pipelines = prs })

-- `.Url` set to the first result where that is a text.
abbrev pub first_url : List ArrayOrString → PipelineResult → PipelineResult
first_url [] pr = pr
first_url (v ∷ _) pr = elim v.type [
  | param_string ↦ record pr { url = v.string_val }
  | param_array ↦ pr
]

-- The stages when a run has ended, by the reason of its first condition.
unfoldable pub settle : (reason run : String) → ComponentStatus → ComponentStatus
unfolding append_unique remove
settle reason run stage =
    if reason == "Succeeded"
    then record stage {
      running = remove stage.running run;
      succeeded = append_unique stage.succeeded run;
    }
    else record stage {
      running = remove stage.running run;
      failed = append_unique stage.failed run;
    }

unfoldable pub start : (run : String) → ComponentStatus → ComponentStatus
unfolding append_unique
start run stage = record stage { running = append_unique stage.running run }

-- The results when a run has ended.
unfoldable pub report :
    (reason : String) → List ArrayOrString → (i : ℕ) → List PipelineResult → List PipelineResult
report reason values i prs =
    if reason == "Succeeded"
    then modify (λ pr. first_url values (record pr { ready = "True" })) i prs
    else prs

module _ {W : Type 0} (lib : Library) (json : Json) (api : Api W) where
  -- The first condition of the run is copied.
  abbrev pub copy_condition : Reconciler → (name : String) → List RunCondition → Reconciler
  copy_condition r name [] = r
  copy_condition r name (c ∷ _) = set_condition lib r "PipelineRun" name c.status c.reason c.message

  -- The end of the function, by the completion time and the conditions; `Conditions[0]` is read when
  -- there is a completion time.
  abbrev pub observe_stage :
      Reconciler
      → (run : String) → (i : ℕ) → List ArrayOrString
      → Option Time
      → List RunCondition
      → Outcome Reconciler
  observe_stage r run i values none cs =
      done (with_progress r (start run r.meteor.status.stage) r.meteor.status.pipelines)
  observe_stage r run i values (some _) [] = panic
  observe_stage r run i values (some _) (c ∷ _) = done (
      with_progress r (settle c.reason run r.meteor.status.stage)
        (report c.reason values i r.meteor.status.pipelines))

  -- The run was found. `i` is `statusIndex`.
  unfoldable pub observe_run :
      Reconciler → (name run : String) (i : ℕ) → PipelineRunStatus → Outcome Reconciler
  unfolding start settle report
  observe_run r name run i status =
      observe_stage (copy_condition r name status.conditions) run i status.pipeline_results
        status.completion_time status.conditions

  -- After `Create`.
  abbrev pub after_create : Reconciler → (name : String) → Result PipelineRun × W → Step W
  after_create r name (ok _, w) = record {
    error = none;
    reconciler =
        set_condition lib r "PipelineRun" name condition_true "BuildStated"
          "Tekton pipeline was submitted.";
    world = w;
  }
  after_create r name (err e, w) = record {
    error = some e;
    reconciler =
        set_condition lib r "PipelineRun" name condition_true "CreateError"
          (sprintf ("Unable to create pipelinerun. " ∷ e.message ∷ []));
    world = w;
  }

  -- The run as it is handed to `Create`.
  unfoldable pub submitted :
      Reconciler → (name namespace : String) → Shower → (references services : String) → PipelineRun
  unfolding desired_run
  submitted r name namespace shower references services =
      let run = desired_run r.meteor name namespace shower.spec references services in
      record run { meta = lib.set_controller_reference r.meteor.type_meta r.meteor.meta run.meta }

  -- The external services have been written, or not.
  unfoldable pub submit :
      Reconciler
      → (name namespace : String) → Shower
      → (references : String) → Result String
      → W
      → Outcome (Step W)
  unfolding submitted
  submit r name namespace s references (err e) w =
      done (record { error = some e; reconciler = r; world = w })
  submit r name namespace s references (ok services) w = done (
      after_create r name
        (api.pipeline_runs.create (submitted r name namespace s references services) w))

  -- The owner references have been written; `r.Shower` is dereferenced.
  unfoldable pub with_shower :
      Reconciler → (name namespace references : String) → Option Shower → W → Outcome (Step W)
  unfolding submit
  with_shower r name namespace references none w = panic
  with_shower r name namespace references (some s) w =
      submit r name namespace s references (json.services s.spec.external_services) w

  -- By the owner references: with none to write, nothing is created.
  unfoldable pub with_references :
      Reconciler → (name namespace : String) → Result String → W → Outcome (Step W)
  unfolding with_shower
  with_references r name namespace (err _) w =
      done (record { error = none; reconciler = r; world = w })
  with_references r name namespace (ok references) w =
      if references == "[]"
      then done (record { error = none; reconciler = r; world = w })
      else with_shower r name namespace references r.shower w

  -- The run was not found.
  unfoldable pub create_run : Reconciler → (name namespace : String) → W → Outcome (Step W)
  unfolding owner_references with_references
  create_run r name namespace w =
      with_references r name namespace (owner_references json r.meteor) w

  abbrev pub observed : Outcome Reconciler → W → Outcome (Step W)
  observed panic w = panic
  observed (done r) w = done (record { error = none; reconciler = r; world = w })

  -- The branches on what `Get` returned.
  unfoldable pub after_get :
      Reconciler → (name namespace : String) (i : ℕ) → Result PipelineRun × W → Outcome (Step W)
  unfolding create_run observe_run resource_name
  after_get r name namespace i (ok run, w) =
      observed (observe_run r name (resource_name r.meteor name) i run.status) w
  after_get r name namespace i (err e, w) =
      if e.not_found
      then create_run r name namespace w
      else done (record {
        error = some e;
        reconciler =
            set_condition lib r "PipelineRun" name condition_false "Error"
              (sprintf ("Reconcile resulted in error. " ∷ e.message ∷ []));
        world = w;
      })

  unfoldable pub reconcile_pipeline_run :
      Reconciler → (name namespace : String) → W → Outcome (Step W)
  unfolding after_get resource_name
  reconcile_pipeline_run r name namespace w =
      after_get (with_index r name) name namespace (status_index r.meteor name).0 (
        api.pipeline_runs.get (record { name = resource_name r.meteor name; namespace = namespace })
          w)

-- ===== src/Meteor/Run/Laws/Tidy.antt =====
-- The stages of a Meteor as sets of runs.
use meteor_operator.Prelude.{
  ℕ, String, Option, none, some, List, [], ◌∷◌, ◌==◌, Bool-cases, inl, inr,
}
use meteor_operator.Kube.Client.{Result, ok, err, Outcome, done, panic, Ends, Ends-if}
use meteor_operator.Kube.Meta.{Time}
use meteor_operator.Kube.Library.{Library}
use meteor_operator.Tekton.{ArrayOrString, PipelineRun, PipelineRunStatus, RunCondition}
use meteor_operator.Api.Common.{ComponentStatus}
use meteor_operator.Api.Shower.{Shower}
use meteor_operator.Meteor.Slices.Laws.{IsUnique, append_unique-IsUnique, remove-IsUnique}
use meteor_operator.Meteor.State.{Reconciler, Api, Step}
use meteor_operator.Meteor.Build.{Json, resource_name, status_index, owner_references}
use meteor_operator.Meteor.Run.{
  settle, start, observe_run, submit, after_create, create_run, after_get, reconcile_pipeline_run,
  with_index, observed, copy_condition, observe_stage, with_shower, with_references,
}

-- No list names a run twice.
abbrev pub IsTidy : ComponentStatus → Type 0
IsTidy stage = IsUnique stage.running × IsUnique stage.succeeded × IsUnique stage.failed

abbrev pub StaysTidy : {W : Type 0} → Outcome (Step W) → Type 0
StaysTidy m = Ends (λ step. IsTidy step.reconciler.meteor.status.stage) m

settle-IsTidy :
    (reason run : String) (stage : ComponentStatus)
    → IsTidy stage
    → IsTidy (settle reason run stage)
unfolding settle
settle-IsTidy reason run stage (a, b, c) = elim (Bool-cases (reason == "Succeeded")) [
  | inl h ↦
      rw h (remove-IsUnique stage.running run a, append_unique-IsUnique stage.succeeded run b, c)
  | inr h ↦ rw h (remove-IsUnique stage.running run a, b, append_unique-IsUnique stage.failed run c)
]

start-IsTidy : (run : String) (stage : ComponentStatus) → IsTidy stage → IsTidy (start run stage)
unfolding start
start-IsTidy run stage (a, b, c) = (append_unique-IsUnique stage.running run a, b, c)

module _ {W : Type 0} (lib : Library) (json : Json) (api : Api W) where
  observe_stage-IsTidy :
      (r : Reconciler) (run : String) (i : ℕ) (values : List ArrayOrString) (ended : Option Time)
      (cs : List RunCondition)
      → IsTidy r.meteor.status.stage
      → Ends
          (λ r'. IsTidy r'.meteor.status.stage)
          (observe_stage lib json api r run i values ended cs)
  observe_stage-IsTidy r run i values none cs t = start-IsTidy run r.meteor.status.stage t
  observe_stage-IsTidy r run i values (some _) [] t = tt
  observe_stage-IsTidy r run i values (some _) (c ∷ _) t =
      settle-IsTidy c.reason run r.meteor.status.stage t

  copy_condition-IsTidy :
      (r : Reconciler) (name : String) (cs : List RunCondition)
      → IsTidy r.meteor.status.stage
      → IsTidy (copy_condition lib json api r name cs).meteor.status.stage
  copy_condition-IsTidy r name [] t = t
  copy_condition-IsTidy r name (c ∷ cs) t = t

  observe_run-IsTidy :
      (r : Reconciler) (name run : String) (i : ℕ) (status : PipelineRunStatus)
      → IsTidy r.meteor.status.stage
      → Ends (λ r'. IsTidy r'.meteor.status.stage) (observe_run lib json api r name run i status)
  unfolding observe_run
  observe_run-IsTidy r name run i status t =
      observe_stage-IsTidy (copy_condition lib json api r name status.conditions) run i
        status.pipeline_results status.completion_time status.conditions
        (copy_condition-IsTidy r name status.conditions t)

  after_create-IsTidy :
      (r : Reconciler) (name : String) (answer : Result PipelineRun × W)
      → IsTidy r.meteor.status.stage
      → IsTidy (after_create lib json api r name answer).reconciler.meteor.status.stage
  after_create-IsTidy r name (ok _, w) t = t
  after_create-IsTidy r name (err _, w) t = t

  submit-StaysTidy :
      (r : Reconciler) (name namespace : String) (s : Shower) (references : String)
      (services : Result String) (w : W)
      → IsTidy r.meteor.status.stage
      → StaysTidy (submit lib json api r name namespace s references services w)
  unfolding submit
  submit-StaysTidy r name namespace s references (err e) w t = t
  submit-StaysTidy r name namespace s references (ok v) w t = after_create-IsTidy r name _ t

  with_shower-StaysTidy :
      (r : Reconciler) (name namespace references : String) (shower : Option Shower) (w : W)
      → IsTidy r.meteor.status.stage
      → StaysTidy (with_shower lib json api r name namespace references shower w)
  unfolding with_shower
  with_shower-StaysTidy r name namespace references none w t = tt
  with_shower-StaysTidy r name namespace references (some s) w t =
      submit-StaysTidy r name namespace s references (json.services s.spec.external_services) w t

  with_references-StaysTidy :
      (r : Reconciler) (name namespace : String) (references : Result String) (w : W)
      → IsTidy r.meteor.status.stage
      → StaysTidy (with_references lib json api r name namespace references w)
  unfolding with_references
  with_references-StaysTidy r name namespace (err _) w t = t
  with_references-StaysTidy r name namespace (ok references) w t =
      Ends-if _ (references == "[]") _ _ t
        (with_shower-StaysTidy r name namespace references r.shower w t)

  observed-StaysTidy :
      (m : Outcome Reconciler) (w : W)
      → Ends (λ r. IsTidy r.meteor.status.stage) m
      → StaysTidy (observed lib json api m w)
  observed-StaysTidy (done r) w t = t
  observed-StaysTidy panic w t = tt

  after_get-StaysTidy :
      (r : Reconciler) (name namespace : String) (i : ℕ) (got : Result PipelineRun × W)
      → IsTidy r.meteor.status.stage
      → StaysTidy (after_get lib json api r name namespace i got)
  unfolding after_get create_run
  after_get-StaysTidy r name namespace i (ok run, w) t =
      observed-StaysTidy _ w
        (observe_run-IsTidy r name (resource_name r.meteor name) i run.status t)
  after_get-StaysTidy r name namespace i (err e, w) t =
      Ends-if _ e.not_found _ _
        (with_references-StaysTidy r name namespace (owner_references json r.meteor) w t) t

  pub reconcile_pipeline_run-StaysTidy :
      (r : Reconciler) (name namespace : String) (w : W)
      → IsTidy r.meteor.status.stage
      → StaysTidy (reconcile_pipeline_run lib json api r name namespace w)
  unfolding reconcile_pipeline_run
  reconcile_pipeline_run-StaysTidy r name namespace w t =
      after_get-StaysTidy (with_index r name) name namespace (status_index r.meteor name).0 _ t

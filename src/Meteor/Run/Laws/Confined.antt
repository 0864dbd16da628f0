-- ===== src/Meteor/Run/Laws/Confined.antt =====
-- ReconcilePipelineRun: what it writes.
use meteor_operator.Prelude.{
  ℕ, String, ◌≡◌, refl, ap, ◌∙◌, Option, none, some, List, [], ◌∷◌, ◌==◌, sprintf,
}
use meteor_operator.Kube.Meta.{Time, NamespacedName, named}
use meteor_operator.Kube.Client.{Result, ok, err, Outcome, done, panic, Ends, Ends-if}
use meteor_operator.Kube.Library.{Library, KeepsKey}
use meteor_operator.Tekton.{ArrayOrString, PipelineRun, PipelineRunStatus, RunCondition}
use meteor_operator.Api.Shower.{Shower}
use meteor_operator.Meteor.State.{Reconciler, Api, Step}
use meteor_operator.Meteor.Permits.{Permits, IsRunOf, name_of}
use meteor_operator.Meteor.Build.{Json, desired_run, resource_name, status_index, owner_references}
use meteor_operator.Meteor.Run.{
  observe_stage, copy_condition, observe_run, after_create, submitted, submit, with_shower,
  with_references, create_run, observed, after_get, reconcile_pipeline_run, with_index,
}

module _ {W : Type 0} (lib : Library) (keeps : KeepsKey lib) (json : Json) (api : Api W)
    (P : W → Type 0) (owner namespace : String) (permits : Permits P api owner namespace) where
  -- Where it ends, the statement holds, and the reconciler still works on the Meteor.
  abbrev pub EndsConfined : Outcome (Step W) → Type 0
  EndsConfined = Ends (λ step. P step.world × (name_of step.reconciler ≡ owner))

  observe_stage-name :
      (r : Reconciler) (run : String) (i : ℕ) (values : List ArrayOrString) (ended : Option Time)
      (cs : List RunCondition)
      → Ends (λ r'. name_of r' ≡ name_of r) (observe_stage lib json api r run i values ended cs)
  observe_stage-name r run i values none cs = refl
  observe_stage-name r run i values (some _) [] = tt
  observe_stage-name r run i values (some _) (c ∷ _) = refl

  copy_condition-name :
      (r : Reconciler) (name : String) (cs : List RunCondition)
      → name_of (copy_condition lib json api r name cs) ≡ name_of r
  copy_condition-name r name [] = refl
  copy_condition-name r name (c ∷ _) = refl

  observed-IsConfined :
      (r : Reconciler) (m : Outcome Reconciler) (w : W)
      → Ends (λ r'. name_of r' ≡ name_of r) m
      → name_of r ≡ owner
      → P w
      → EndsConfined (observed lib json api m w)
  observed-IsConfined r panic w h n p = tt
  observed-IsConfined r (done r') w h n p = (p, h ∙ n)

  observe_run-IsConfined :
      (r : Reconciler) (name run : String) (i : ℕ) (status : PipelineRunStatus) (w : W)
      → name_of r ≡ owner
      → P w
      → EndsConfined (observed lib json api (observe_run lib json api r name run i status) w)
  unfolding observe_run
  observe_run-IsConfined r name run i status w n p =
      observed-IsConfined (copy_condition lib json api r name status.conditions) _ w
        (observe_stage-name (copy_condition lib json api r name status.conditions) run i
          status.pipeline_results status.completion_time status.conditions)
        (copy_condition-name r name status.conditions ∙ n) p

  submitted-IsRunOf :
      (r : Reconciler) (name : String) (s : Shower) (references services : String)
      → name_of r ≡ owner
      → IsRunOf owner namespace (submitted lib json api r name namespace s references services)
  unfolding submitted desired_run resource_name
  submitted-IsRunOf r name s references services n =
      let key =
        keeps r.meteor.type_meta r.meteor.meta
          (named (sprintf (r.meteor.meta.name ∷ "-" ∷ name ∷ [])) namespace) in
      (
        ap (λ k. k.namespace) key,
        (name, ap (λ k. k.name) key ∙ ap (λ v. sprintf (v ∷ "-" ∷ name ∷ [])) n, refl),
      )

  created-IsConfined :
      (r : Reconciler) (name : String) (answer : Result PipelineRun × W)
      → name_of r ≡ owner
      → P answer.1
      → EndsConfined (done (after_create lib json api r name answer))
  created-IsConfined r name (ok _, w) n p = (p, n)
  created-IsConfined r name (err _, w) n p = (p, n)

  submit-IsConfined :
      (r : Reconciler) (name : String) (s : Shower) (references : String) (services : Result String)
      (w : W)
      → name_of r ≡ owner
      → P w
      → EndsConfined (submit lib json api r name namespace s references services w)
  unfolding submit
  submit-IsConfined r name s references (err e) w n p = (p, n)
  submit-IsConfined r name s references (ok v) w n p =
      let run = submitted lib json api r name namespace s references v in
      created-IsConfined r name (api.pipeline_runs.create run w) n
        (permits.run_create run w (submitted-IsRunOf r name s references v n) p)

  with_shower-IsConfined :
      (r : Reconciler) (name references : String) (o : Option Shower) (w : W)
      → name_of r ≡ owner
      → P w
      → EndsConfined (with_shower lib json api r name namespace references o w)
  unfolding with_shower
  with_shower-IsConfined r name references none w n p = tt
  with_shower-IsConfined r name references (some s) w n p =
      submit-IsConfined r name s references (json.services s.spec.external_services) w n p

  with_references-IsConfined :
      (r : Reconciler) (name : String) (references : Result String) (w : W)
      → name_of r ≡ owner
      → P w
      → EndsConfined (with_references lib json api r name namespace references w)
  unfolding with_references
  with_references-IsConfined r name (err _) w n p = (p, n)
  with_references-IsConfined r name (ok references) w n p =
      Ends-if _ (references == "[]") _ _ (p, n)
        (with_shower-IsConfined r name references r.shower w n p)

  after_get-IsConfined :
      (r : Reconciler) (name : String) (i : ℕ) (answer : Result PipelineRun × W)
      → name_of r ≡ owner
      → P answer.1
      → EndsConfined (after_get lib json api r name namespace i answer)
  unfolding after_get create_run
  after_get-IsConfined r name i (ok run, w) n p =
      observe_run-IsConfined r name (resource_name r.meteor name) i run.status w n p
  after_get-IsConfined r name i (err e, w) n p =
      Ends-if _ e.not_found _ _
        (with_references-IsConfined r name (owner_references json r.meteor) w n p) (p, n)

  pub reconcile_pipeline_run-IsConfined :
      (r : Reconciler) (name : String) (w : W)
      → name_of r ≡ owner
      → P w
      → EndsConfined (reconcile_pipeline_run lib json api r name namespace w)
  unfolding reconcile_pipeline_run
  reconcile_pipeline_run-IsConfined r name w n p =
      let key : NamespacedName = record {
        name = resource_name r.meteor name;
        namespace = namespace;
      } in
      after_get-IsConfined (with_index r name) name (status_index r.meteor name).0
        (api.pipeline_runs.get key w) n (permits.run_get key w p)

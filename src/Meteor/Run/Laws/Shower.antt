-- ===== src/Meteor/Run/Laws/Shower.antt =====
-- ReconcilePipelineRun and the Shower of the reconciler.
use meteor_operator.Prelude.{ℕ, String, ◌≡◌, refl, ap, Option, none, some, List, [], ◌∷◌, ◌==◌}
use meteor_operator.Kube.Meta.{Time, NamespacedName}
use meteor_operator.Kube.Client.{Result, ok, err, Outcome, done, panic, Returns, Returns-if}
use meteor_operator.Kube.Library.{Library}
use meteor_operator.Tekton.{ArrayOrString, PipelineRun, PipelineRunStatus, RunCondition}
use meteor_operator.Api.Shower.{Shower}
use meteor_operator.Meteor.State.{Reconciler, Api, Step}
use meteor_operator.Meteor.Build.{Json, resource_name, status_index, owner_references}
use meteor_operator.Meteor.Run.{
  observe_stage, copy_condition, observe_run, after_create, submit, with_shower, with_references,
  create_run, observed, after_get, reconcile_pipeline_run, with_index,
}

-- It returns, and the Shower is the one given.
abbrev pub KeepsShower : {W : Type 0} → Shower → Outcome (Step W) → Type 0
KeepsShower s = Returns (λ step. step.reconciler.shower ≡ some s)

-- A run that has ended carries a condition.
abbrev pub IsSound : PipelineRunStatus → Type 0
IsSound status = status.conditions ≡ [] → status.completion_time ≡ none

-- Every run that the cluster serves does.
abbrev pub ServesSound : {W : Type 0} → Api W → Type 0
ServesSound {W = W} api =
    (key : NamespacedName) (run : PipelineRun) (w w' : W)
    → api.pipeline_runs.get key w ≡ (ok run, w')
    → IsSound run.status

module _ {W : Type 0} (lib : Library) (json : Json) (api : Api W) (s : Shower) where
  copy_condition-shower :
      (r : Reconciler) (name : String) (cs : List RunCondition)
      → r.shower ≡ some s
      → (copy_condition lib json api r name cs).shower ≡ some s
  copy_condition-shower r name [] h = h
  copy_condition-shower r name (c ∷ cs) h = h

  observe_stage-shower :
      (r : Reconciler) (run : String) (i : ℕ) (values : List ArrayOrString) (ended : Option Time)
      (cs : List RunCondition)
      → (cs ≡ [] → ended ≡ none)
      → r.shower ≡ some s
      → Returns (λ r'. r'.shower ≡ some s) (observe_stage lib json api r run i values ended cs)
  observe_stage-shower r run i values none cs n h = h
  observe_stage-shower r run i values (some _) [] n h = cc (n refl)
  observe_stage-shower r run i values (some _) (c ∷ _) n h = h

  observe_run-shower :
      (r : Reconciler) (name run : String) (i : ℕ) (status : PipelineRunStatus)
      → IsSound status
      → r.shower ≡ some s
      → Returns (λ r'. r'.shower ≡ some s) (observe_run lib json api r name run i status)
  unfolding observe_run
  observe_run-shower r name run i status n h =
      observe_stage-shower (copy_condition lib json api r name status.conditions) run i
        status.pipeline_results status.completion_time status.conditions n
        (copy_condition-shower r name status.conditions h)

  after_create-shower :
      (r : Reconciler) (name : String) (answer : Result PipelineRun × W)
      → r.shower ≡ some s
      → (after_create lib json api r name answer).reconciler.shower ≡ some s
  after_create-shower r name (ok _, w) h = h
  after_create-shower r name (err _, w) h = h

  submit-shower :
      (r : Reconciler) (name namespace : String) (t : Shower) (references : String)
      (services : Result String) (w : W)
      → r.shower ≡ some s
      → KeepsShower s (submit lib json api r name namespace t references services w)
  unfolding submit
  submit-shower r name namespace t references (err e) w h = h
  submit-shower r name namespace t references (ok v) w h = after_create-shower r name _ h

  with_shower-shower :
      (r : Reconciler) (name namespace references : String) (o : Option Shower) (w : W)
      → o ≡ some s
      → r.shower ≡ some s
      → KeepsShower s (with_shower lib json api r name namespace references o w)
  unfolding with_shower
  with_shower-shower r name namespace references none w e h = cc
  with_shower-shower r name namespace references (some t) w e h =
      submit-shower r name namespace t references (json.services t.spec.external_services) w h

  with_references-shower :
      (r : Reconciler) (name namespace : String) (references : Result String) (w : W)
      → r.shower ≡ some s
      → KeepsShower s (with_references lib json api r name namespace references w)
  unfolding with_references
  with_references-shower r name namespace (err _) w h = h
  with_references-shower r name namespace (ok references) w h =
      Returns-if (λ (step : Step W). step.reconciler.shower ≡ some s) (references == "[]") _ _ h
        (with_shower-shower r name namespace references r.shower w h h)

  observed-shower :
      (m : Outcome Reconciler) (w : W)
      → Returns (λ r. r.shower ≡ some s) m
      → KeepsShower s (observed lib json api m w)
  observed-shower (done r) w h = h
  observed-shower panic w h = h

  after_get-shower :
      (r : Reconciler) (name namespace : String) (i : ℕ) (got : Result PipelineRun × W)
      → ((run : PipelineRun) → got.0 ≡ ok run → IsSound run.status)
      → r.shower ≡ some s
      → KeepsShower s (after_get lib json api r name namespace i got)
  unfolding after_get create_run
  after_get-shower r name namespace i (ok run, w) n h =
      observed-shower _ w
        (observe_run-shower r name (resource_name r.meteor name) i run.status (n run refl) h)
  after_get-shower r name namespace i (err e, w) n h =
      Returns-if (λ (step : Step W). step.reconciler.shower ≡ some s) e.not_found _ _
        (with_references-shower r name namespace (owner_references json r.meteor) w h) h

  -- With a Shower, and against a cluster whose ended runs have conditions, the reconciliation of a
  -- pipeline returns.
  pub reconcile_pipeline_run-shower :
      (r : Reconciler) (name namespace : String) (w : W)
      → ServesSound api
      → r.shower ≡ some s
      → KeepsShower s (reconcile_pipeline_run lib json api r name namespace w)
  unfolding reconcile_pipeline_run
  reconcile_pipeline_run-shower r name namespace w sound h =
      let key : NamespacedName = record {
        name = resource_name r.meteor name;
        namespace = namespace;
      } in
      after_get-shower (with_index r name) name namespace (status_index r.meteor name).0
        (api.pipeline_runs.get key w)
        (λ run e.
          sound key run w (api.pipeline_runs.get key w).1
            (ap (λ a. (a, (api.pipeline_runs.get key w).1)) e))
        h

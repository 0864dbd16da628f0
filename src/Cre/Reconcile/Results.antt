-- ===== src/Cre/Reconcile/Results.antt =====
-- The pipeline results in the status, and when a reconciliation panics.
use meteor_operator.Prelude.{ℕ, ◌≡◌, ◌≢◌, refl, ◌↔◌, none, [], arith}
use meteor_operator.Kube.Client.{Result, ok, err, done, panic, Ends, Ends-done, Ends-if, Ends-bind}
use meteor_operator.Kube.Conditions.{ConditionOps}
use meteor_operator.Kube.Library.{Library}
use meteor_operator.Tekton.{PipelineRun}
use meteor_operator.Api.Cre.{CustomRuntimeEnvironment}
use meteor_operator.Cre.Build.{status_index}
use meteor_operator.Cre.Observe.{on_completion, observe_run}
use meteor_operator.Cre.Reconcile.{
  Api, after_create, create_run, with_index, after_get, run_key, reconcile_pipeline_run,
}

-- Reading a run panics exactly when the run has ended and carries no condition.
pub observe_run-eq-panic_iff :
    (ops : ConditionOps) (cre : CustomRuntimeEnvironment) (index : ℕ) (run : PipelineRun)
    → (observe_run ops cre index run ≡ panic)
      ↔ ((run.status.conditions ≡ []) × (run.status.completion_time ≢ none))
unfolding observe_run on_completion
observe_run-eq-panic_iff ops cre index run = ground arith

observe_run-pipelines :
    (ops : ConditionOps) (cre : CustomRuntimeEnvironment) (index : ℕ) (run : PipelineRun)
    → Ends (λ c. c.status.pipelines ≡ cre.status.pipelines) (observe_run ops cre index run)
unfolding observe_run on_completion
observe_run-pipelines ops cre index run = ground arith

module _ {W : Type 0} (lib : Library) (api : Api W) (cre : CustomRuntimeEnvironment) where
  abbrev pub Indexed : CustomRuntimeEnvironment × W → Type 0
  Indexed x = x.0.status.pipelines ≡ (status_index cre).1

  after_create-Indexed :
      (run : PipelineRun) (r : Result PipelineRun)
      → (after_create lib api (with_index cre) run r).status.pipelines ≡ (status_index cre).1
  unfolding after_create
  after_create-Indexed run (ok created) = refl
  after_create-Indexed run (err e) = refl

  after_get-Indexed : (r : Result PipelineRun) (w : W) → Ends Indexed (after_get lib api cre r w)
  unfolding after_get create_run
  after_get-Indexed (err e) w = Ends-if Indexed e.not_found _ _ (after_create-Indexed _ _) refl
  after_get-Indexed (ok run) w =
      Ends-bind Indexed (observe_run lib.conditions (with_index cre) (status_index cre).0 run)
        (λ seen. done (seen, w))
        (λ seen found.
          Ends-done (λ c. c.status.pipelines ≡ (status_index cre).1) _
            (observe_run-pipelines lib.conditions (with_index cre) (status_index cre).0 run) found)

  -- The results in the status are those that `statusIndex` leaves: whatever the run has come to, no
  -- result is marked as ready and no URL is recorded.
  pub reconcile_pipeline_run-Indexed : (w : W) → Ends Indexed (reconcile_pipeline_run lib api cre w)
  unfolding reconcile_pipeline_run
  reconcile_pipeline_run-Indexed w = after_get-Indexed _ _

  -- What `Get` has found that makes the reconciliation panic.
  abbrev pub Strange : Result PipelineRun → Type 0
  Strange (ok run) = (run.status.conditions ≡ []) × (run.status.completion_time ≢ none)
  Strange (err e) = ⊥

  after_get-eq-panic_iff :
      (r : Result PipelineRun) (w : W) → (after_get lib api cre r w ≡ panic) ↔ Strange r
  unfolding after_get
  after_get-eq-panic_iff (err e) w = ground arith
  after_get-eq-panic_iff (ok run) w =
      ground
        (arith, observe_run-eq-panic_iff lib.conditions (with_index cre) (status_index cre).0 run)

  -- A reconciliation panics exactly when the run is there, has ended and carries no condition.
  pub reconcile_pipeline_run-eq-panic_iff :
      (w : W)
      → (reconcile_pipeline_run lib api cre w ≡ panic)
        ↔ Strange (api.pipeline_runs.get (run_key cre) w).0
  unfolding reconcile_pipeline_run run_key
  reconcile_pipeline_run-eq-panic_iff w = after_get-eq-panic_iff _ _

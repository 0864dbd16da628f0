-- ===== src/Cre/Reconcile/Conditions.antt =====
-- What one reconciliation does to the conditions of a CustomRuntimeEnvironment.
use meteor_operator.Prelude.{ℕ, ◌≡◌, refl, List, [], ◌∷◌, ◌==◌, arith}
use meteor_operator.Kube.Conditions.{Condition}
use meteor_operator.Kube.Client.{Result, ok, err, done, Ends, Ends-if, Ends-bind}
use meteor_operator.Kube.Library.{Library}
use meteor_operator.Tekton.{PipelineRun, RunCondition}
use meteor_operator.Api.Cre.{CustomRuntimeEnvironment, error_pipeline_run_create}
use meteor_operator.Cre.Build.{status_index}
use meteor_operator.Cre.Observe.{
  on_success, on_failure, on_condition, on_completion, observe_run, label_of,
}
use meteor_operator.Cre.Conditions.{Keeps, start, set, remove, Keeps-if}
use meteor_operator.Cre.Reconcile.{
  Api, after_create, create_run, with_index, after_get, reconcile_pipeline_run,
}

-- The condition that no later edit makes untrue.
abbrev pub Stays : Library → List Condition → List Condition → Type 0
Stays lib = Keeps lib.conditions error_pipeline_run_create

module _ (lib : Library) (cre : CustomRuntimeEnvironment) where
  on_success-Keeps :
      (run : PipelineRun) (cs : List Condition)
      → Stays lib cs (on_success lib.conditions cre run cs)
  unfolding on_success
  on_success-Keeps run cs =
      let ended = remove (set start _ refl) _ refl in
      let imported = Keeps-if (label_of run == "import") (set ended _ refl) ended in
      Keeps-if (label_of run == "package-list") (set imported _ refl) imported

  on_failure-Keeps :
      (run : PipelineRun) (cs : List Condition)
      → Stays lib cs (on_failure lib.conditions cre run cs)
  unfolding on_failure
  on_failure-Keeps run cs =
      let ended = remove (set start _ refl) _ refl in
      Keeps-if (label_of run == "import") (set ended _ refl) (
        Keeps-if (label_of run == "gitrepo") (set ended _ refl)
          (Keeps-if (label_of run == "package-list") (set ended _ refl) ended))

  on_condition-Keeps :
      (run : PipelineRun) (c : RunCondition)
      → Stays lib cre.status.conditions (on_condition lib.conditions cre run c)
  unfolding on_condition
  on_condition-Keeps run c =
      Keeps-if _ (on_success-Keeps run _) (Keeps-if _ (on_failure-Keeps run _) start)

  -- The conditions after looking at a run.
  unfoldable pub observed_conditions : List RunCondition → PipelineRun → List Condition
  observed_conditions [] run = cre.status.conditions
  observed_conditions (c ∷ cs) run = on_condition lib.conditions cre run c

  observed_conditions-Keeps :
      (cs : List RunCondition) (run : PipelineRun)
      → Stays lib cre.status.conditions (observed_conditions cs run)
  unfolding observed_conditions
  observed_conditions-Keeps [] run = start
  observed_conditions-Keeps (c ∷ cs) run = on_condition-Keeps run c

  pub observe_run-conditions :
      (index : ℕ) (run : PipelineRun) {cre' : CustomRuntimeEnvironment}
      → observe_run lib.conditions cre index run ≡ done cre'
      → cre'.status.conditions ≡ observed_conditions run.status.conditions run
  unfolding observe_run on_completion observed_conditions
  observe_run-conditions index run h = ground arith

  observe_run-Keeps :
      (index : ℕ) (run : PipelineRun) {cre' : CustomRuntimeEnvironment}
      → observe_run lib.conditions cre index run ≡ done cre'
      → Stays lib cre.status.conditions cre'.status.conditions
  observe_run-Keeps index run h =
      rw (observe_run-conditions index run h) (observed_conditions-Keeps run.status.conditions run)

module _ {W : Type 0} (lib : Library) (api : Api W) (cre : CustomRuntimeEnvironment) where
  after_create-Keeps :
      (run : PipelineRun) (r : Result PipelineRun)
      → Stays lib cre.status.conditions (after_create lib api cre run r).status.conditions
  unfolding after_create
  after_create-Keeps run (ok created) = set start _ refl
  after_create-Keeps run (err e) = set (set start _ refl) _ refl

  create_run-Keeps :
      (w : W) → Stays lib cre.status.conditions (create_run lib api cre w).0.status.conditions
  unfolding create_run
  create_run-Keeps w = after_create-Keeps _ _

-- The conditions that a reconciliation may end with.
abbrev pub StaysAfter :
    {W : Type 0} → Library → CustomRuntimeEnvironment → CustomRuntimeEnvironment × W → Type 0
StaysAfter lib cre x = Stays lib cre.status.conditions x.0.status.conditions

module _ {W : Type 0} (lib : Library) (api : Api W) (cre : CustomRuntimeEnvironment) where
  after_get-Keeps :
      (r : Result PipelineRun) (w : W)
      → Ends (StaysAfter {W = W} lib cre) (after_get lib api cre r w)
  unfolding after_get
  after_get-Keeps (err e) w =
      Ends-if (StaysAfter {W = W} lib cre) e.not_found _ _
        (create_run-Keeps lib api (with_index cre) w) (set start _ refl)
  after_get-Keeps (ok run) w =
      Ends-bind (StaysAfter {W = W} lib cre) _ _
        (λ seen found. observe_run-Keeps lib (with_index cre) (status_index cre).0 run found)

  pub reconcile_pipeline_run-Keeps :
      (w : W) → Ends (StaysAfter {W = W} lib cre) (reconcile_pipeline_run lib api cre w)
  unfolding reconcile_pipeline_run
  reconcile_pipeline_run-Keeps w = after_get-Keeps _ _

-- ===== src/Cre/Reconcile/Outcomes.antt =====
-- How a run that has ended shows in the phase.
use meteor_operator.Prelude.{ℕ, String, ◌≡◌, false, List, ◌∷◌, ◌==◌, arith, eq_iff}
use meteor_operator.Kube.Conditions.{
  ConditionOps, IsListMap, AreConditionOps, condition_true, condition_false,
}
use meteor_operator.Kube.Client.{ok, done}
use meteor_operator.Kube.Library.{Library}
use meteor_operator.Tekton.{PipelineRun, RunCondition}
use meteor_operator.Api.Common.{Phase, failed, succeeded}
use meteor_operator.Api.Cre.{CustomRuntimeEnvironment}
use meteor_operator.Api.Cre.Aggregate.{phase_of}
use meteor_operator.Cre.Observe.{
  with_conditions, label_of, on_success, on_failure, on_condition, observe_run,
}
use meteor_operator.Cre.Reconcile.{
  Api, DeepEqual, with_index, with_phase, with_generation, run_key, refresh,
}
use meteor_operator.Cre.Reconcile.Branches.{Reports, reports, refresh_lem, reconcile_found}
use meteor_operator.Cre.Reconcile.Ended.{
  NoError, BuildsImage, NoImage, on_success-succeeded, on_success-without_image, on_failure-failed,
}

-- A run that has ended: its first condition is about its success.
pub record HasEnded (run : PipelineRun) (status : String) : Type 0 where
  pub first : RunCondition
  pub more : List RunCondition
  pub listed : run.status.conditions ≡ first ∷ more
  pub about_success : first.type ≡ "Succeeded"
  pub result : first.status ≡ status

observe_run-listed :
    (ops : ConditionOps) (cre : CustomRuntimeEnvironment) (index : ℕ) (run : PipelineRun)
    (first : RunCondition) (more : List RunCondition)
    → run.status.conditions ≡ first ∷ more
    → observe_run ops cre index run ≡ done (with_conditions cre (on_condition ops cre run first))
unfolding observe_run
observe_run-listed ops cre index run first more listed = ground arith

on_condition-success :
    (ops : ConditionOps) (cre : CustomRuntimeEnvironment) (run : PipelineRun) (first : RunCondition)
    → first.type ≡ "Succeeded"
    → first.status ≡ condition_true
    → on_condition ops cre run first ≡ on_success ops cre run cre.status.conditions
unfolding on_condition
on_condition-success ops cre run first t s =
    ground (arith, eq_iff first.type "Succeeded", eq_iff first.status condition_true)

on_condition-failure :
    (ops : ConditionOps) (cre : CustomRuntimeEnvironment) (run : PipelineRun) (first : RunCondition)
    → first.type ≡ "Succeeded"
    → first.status ≡ condition_false
    → on_condition ops cre run first ≡ on_failure ops cre run cre.status.conditions
unfolding on_condition
on_condition-failure ops cre run first t s = simp (t, s)

module _ {W : Type 0} (lib : Library) (api : Api W) (eq : DeepEqual)
    (laws : AreConditionOps lib.conditions) (cre : CustomRuntimeEnvironment) (w w' : W)
    (run : PipelineRun) (keyed : IsListMap cre.status.conditions)
    (got : api.pipeline_runs.get (run_key cre) w ≡ (ok run, w')) where
  abbrev indexed : CustomRuntimeEnvironment
  indexed = with_index (with_phase cre)

  -- The status update is given the phase `p`, and the cluster is as the `Get` left it.
  abbrev pub EndsIn : Phase → Type 0
  EndsIn p =
      (c : CustomRuntimeEnvironment) × (refresh lib api eq cre w ≡ done (c, w')) × Reports c p

  settled :
      (first : RunCondition) (more : List RunCondition) (p : Phase)
      → run.status.conditions ≡ first ∷ more
      → phase_of (on_condition lib.conditions indexed run first) ≡ p
      → EndsIn p
  settled first more p listed h =
      let seen = with_conditions indexed (on_condition lib.conditions indexed run first) in
      (
        with_phase (with_generation seen),
        refresh_lem lib api eq cre w {seen = seen} (
            reconcile_found lib api eq cre w w' run got
              (observe_run-listed lib.conditions indexed _ run first more listed)),
        reports seen p h,
      )

  -- When the run is found and its first condition says that it has succeeded, the refresh of an import
  -- or package list build returns with the phase Succeeded, and leaves the cluster as `Get` did. The
  -- resource's conditions are keyed by type and record no error.
  pub refresh-succeeded :
      HasEnded run condition_true
      → NoError cre.status.conditions
      → BuildsImage run
      → EndsIn succeeded
  refresh-succeeded end sound builds = settled end.first end.more succeeded end.listed (
      rw (on_condition-success lib.conditions indexed run end.first end.about_success end.result)
        (on_success-succeeded laws indexed cre.status.conditions keyed run sound builds))

  -- When the run is found and has succeeded, the refresh of any other build, such as that of a Git
  -- repository, returns with the phase Failed, where no image has been reported before. The
  -- resource's conditions are keyed by type.
  pub refresh-without_image :
      HasEnded run condition_true
      → NoImage cre.status.conditions
      → (label_of run == "import") ≡ false
      → (label_of run == "package-list") ≡ false
      → EndsIn failed
  refresh-without_image end none p q = settled end.first end.more failed end.listed (
      rw (on_condition-success lib.conditions indexed run end.first end.about_success end.result)
        (on_success-without_image laws indexed cre.status.conditions keyed run none p q))

  -- When the run is found and its first condition says that it has failed, the refresh returns with the
  -- phase Failed, where no image has been reported before. The resource's conditions are keyed by
  -- type.
  pub refresh-failed : HasEnded run condition_false → NoImage cre.status.conditions → EndsIn failed
  refresh-failed end none = settled end.first end.more failed end.listed (
      rw (on_condition-failure lib.conditions indexed run end.first end.about_success end.result)
        (on_failure-failed laws indexed cre.status.conditions keyed run none))

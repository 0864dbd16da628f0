-- ===== src/Cre/Reconcile/Life.antt =====
-- The life of a resource: reconciliations in any state of the cluster, and edits by its users.
use meteor_operator.Prelude.{◌≡◌, ◌∙◌, true}
use meteor_operator.Kube.Conditions.{IsListMap, AreConditionOps}
use meteor_operator.Kube.Client.{done, Ends, Ends-done, Ends-of, Ends-bind}
use meteor_operator.Kube.Library.{Library}
use meteor_operator.Api.Common.{failed}
use meteor_operator.Api.Cre.{CustomRuntimeEnvironment, error_pipeline_run_create}
use meteor_operator.Api.Cre.Aggregate.{holds, phase_of-failed, aggregate_phase_lem}
use meteor_operator.Cre.Conditions.{Keeps-IsListMap, Keeps-holds}
use meteor_operator.Cre.Reconcile.{
  Api, DeepEqual, with_phase, with_generation, reconcile_pipeline_run, refresh,
}
use meteor_operator.Cre.Reconcile.Conditions.{StaysAfter, reconcile_pipeline_run-Keeps}
use meteor_operator.Cre.Reconcile.Phase.{refresh-IsFresh}

module _ {W : Type 0} (lib : Library) (api : Api W) (eq : DeepEqual) where
  -- The status is a subresource: users change everything else, the controller only the status.
  pub data Life (a : CustomRuntimeEnvironment) : CustomRuntimeEnvironment → Type 0 where
    born : Life a a
    reconciled :
        {b c : CustomRuntimeEnvironment} (w : W) {w' : W}
        → Life a b
        → refresh lib api eq b w ≡ done (c, w')
        → Life a c
    edited : {b c : CustomRuntimeEnvironment} → Life a b → c.status ≡ b.status → Life a c

  refresh-Keeps :
      (cre : CustomRuntimeEnvironment) (w : W)
      → Ends (StaysAfter {W = W} lib cre) (refresh lib api eq cre w)
  unfolding refresh
  refresh-Keeps cre w =
      Ends-bind (StaysAfter {W = W} lib cre) (reconcile_pipeline_run lib api (with_phase cre) w) _
        (λ x found.
          rw (eq.distinct_types (with_generation x.0).status cre.status)
            (Ends-done _ _ (reconcile_pipeline_run-Keeps lib api (with_phase cre) w) found))

  Life-IsListMap :
      {a b : CustomRuntimeEnvironment}
      → AreConditionOps lib.conditions
      → IsListMap a.status.conditions
      → Life a b
      → IsListMap b.status.conditions
  Life-IsListMap laws h born = h
  Life-IsListMap laws h (reconciled {b = b} w l e) =
      Keeps-IsListMap laws (Life-IsListMap laws h l)
        (Ends-done (StaysAfter {W = W} lib b) _ (refresh-Keeps b w) e)
  Life-IsListMap laws h (edited l e) = rw e (Life-IsListMap laws h l)

  Life-holds :
      {a b : CustomRuntimeEnvironment}
      → AreConditionOps lib.conditions
      → IsListMap a.status.conditions
      → holds error_pipeline_run_create a.status.conditions ≡ true
      → Life a b
      → holds error_pipeline_run_create b.status.conditions ≡ true
  Life-holds laws h p born = p
  Life-holds laws h p (reconciled {b = b} w l e) =
      Keeps-holds laws (Life-IsListMap laws h l) (Life-holds laws h p l)
        (Ends-done (StaysAfter {W = W} lib b) _ (refresh-Keeps b w) e)
  Life-holds laws h p (edited l e) = rw e (Life-holds laws h p l)

module _ {W : Type 0} (lib : Library) (api : Api W) (eq : DeepEqual) where
  -- Once the creation of a run has failed, every later reconciliation that ends leaves the phase at
  -- Failed, whatever the cluster answers and however users edit the resource meanwhile.
  pub creation_error_is_final :
      {a b : CustomRuntimeEnvironment} (w : W)
      → AreConditionOps lib.conditions
      → IsListMap a.status.conditions
      → holds error_pipeline_run_create a.status.conditions ≡ true
      → Life lib api eq a b
      → Ends (λ x. x.0.status.phase ≡ failed) (refresh lib api eq b w)
  creation_error_is_final {b = b} w laws h p l =
      Ends-of (λ x. x.0.status.phase ≡ failed) (refresh lib api eq b w)
        (λ x found.
          (Ends-done _ _ (refresh-IsFresh lib api eq b w) found).0
          ∙ aggregate_phase_lem x.0
          ∙ phase_of-failed x.0.status.conditions
              (Life-holds lib api eq laws h p (reconciled w l found)))

-- ===== src/Meteor/Runs.antt =====
-- Tests of runs and of whole reconciliations of a Meteor: the theorems about them at sample inputs.
use meteor_operator.Meteor.Samples.{
  leaving, World, shower, reconciler, api, json, run_status, two, plain, brief, alone, tidy, held,
}
use meteor_operator.Prelude.{true, ◌≡◌, ◌≢◌, refl, ◌↔◌, none, some, [], ◌∷◌, arith}
use meteor_operator.Kube.Client.{Ends, Outcome, panic}
use meteor_operator.Meteor.State.{Step}
use meteor_operator.Meteor.Owner.Laws.{is_some}
use meteor_operator.Prelude.Int.{pos, ◌+ℤ◌}
use meteor_operator.Kube.Doubles.{plain_library}
use meteor_operator.Tekton.{no_status}
use meteor_operator.Meteor.Metrics.{metrics_after_reconcile}
use meteor_operator.Meteor.Run.{observe_run, reconcile_pipeline_run}
use meteor_operator.Meteor.Run.Laws.{SettlesTo, observe_run-Settled, observe_run-eq-panic_iff}
use meteor_operator.Meteor.Run.Laws.Tidy.{StaysTidy}
use meteor_operator.Meteor.Reconcile.{reconcile_pipelines, reconcile, after_delete}
use meteor_operator.Meteor.Reconcile.Laws.{
  owned_by, reconcile_pipelines-StaysTidy, reconcile-without_shower, reconcile-expired,
}

observe_run-Settled_example :
    SettlesTo plain_library json
      (api plain two)
      (reconciler plain none)
      "jupyterbook"
      "demo-jupyterbook"
      0
      (run_status "Succeeded")
      "Succeeded"
observe_run-Settled_example =
    observe_run-Settled plain_library json (api plain two) (reconciler plain none) "jupyterbook"
      "demo-jupyterbook" 0 (run_status "Succeeded") (pos 3000)
      (record { type = "Succeeded"; status = "True"; reason = "Succeeded"; message = "" }) [] refl
      refl tidy.0

-- The run of a Meteor that has a Coma.
abbrev hub_run : Outcome (Step World)
hub_run =
    reconcile_pipeline_run plain_library json (api leaving two)
      (reconciler leaving (some (shower "one"))) "hub" "default" none

hub_run-submits : Ends (λ step. is_some step.world ≡ true) hub_run
unfolding reconcile_pipeline_run
hub_run-submits = refl

reconcile_pipelines-StaysTidy_example : StaysTidy (
    reconcile_pipelines plain_library json
      (api plain two)
      ("jupyterbook" ∷ "jupyterhub" ∷ [])
      "default"
      (reconciler plain (some (shower "one")))
      none)
reconcile_pipelines-StaysTidy_example =
    reconcile_pipelines-StaysTidy plain_library json (api plain two)
      ("jupyterbook" ∷ "jupyterhub" ∷ []) "default" (reconciler plain (some (shower "one"))) none
      tidy

reconcile-without_shower_example :
    reconcile plain_library json
      (api plain [])
      (record { name = "demo"; namespace = "default" })
      (pos 5000)
      (reconciler plain none)
      none
    ≡ panic
reconcile-without_shower_example =
    reconcile-without_shower plain_library json (api plain [])
      (record { name = "demo"; namespace = "default" }) (pos 5000) (reconciler plain none) plain
      plain none none none none refl refl refl refl refl refl held

reconcile-expired_example :
    reconcile plain_library json alone
      (record { name = "demo"; namespace = "default" })
      (pos 70000000000)
      (reconciler brief none)
      none
    ≡ after_delete plain_library json alone
        (metrics_after_reconcile
          (owned_by plain_library json alone (reconciler brief none) brief (shower "one") none)
          (pos 70000000000))
        (none, none)
unfolding ◌+ℤ◌
reconcile-expired_example =
    reconcile-expired plain_library json alone (record { name = "demo"; namespace = "default" })
      (pos 70000000000) (reconciler brief none) brief (shower "one") 60 none none none
      (λ _ _ _. (refl, refl)) refl refl refl (omega arith) (omega arith) (omega arith) refl

observe_run-eq-panic_iff_example :
    (observe_run plain_library json
        (api plain two)
        (reconciler plain none)
        "hub"
        "demo-hub"
        0
        (record no_status { completion_time = some (pos 1) })
      ≡ panic)
    ↔ (no_status.conditions ≡ []) × (some (pos 1) ≢ none)
observe_run-eq-panic_iff_example =
    observe_run-eq-panic_iff plain_library json (api plain two) (reconciler plain none) "hub"
      "demo-hub" 0 (record no_status { completion_time = some (pos 1) })

-- ===== src/Meteor/ShowerTests.antt =====
-- A reconciliation of a sample Meteor by a reconciler that has a Shower.
use mathlib.Core.Path.{subst}
use meteor_operator.Prelude.{refl, ap, some, [], sprintf}
use meteor_operator.Prelude.Int.{pos}
use meteor_operator.Kube.Meta.{named}
use meteor_operator.Kube.Client.{ok-injective, Returns}
use meteor_operator.Kube.Doubles.{plain_library, constant}
use meteor_operator.Tekton.{PipelineRun, no_spec}
use meteor_operator.Meteor.State.{Api}
use meteor_operator.Meteor.Samples.{World, reconciler, api, json, run_status, plain, shower, two}
use meteor_operator.Meteor.Reconcile.{reconcile}
use meteor_operator.Meteor.Run.Laws.Shower.{IsSound, ServesSound}
use meteor_operator.Meteor.Reconcile.Shower.{
  HasShower, KeepsReply, reconcile-HasShower, reconcile-stale,
}

abbrev finished : PipelineRun
finished = record {
  meta = named "demo-jupyterbook" "default";
  spec = no_spec;
  status = run_status "Succeeded";
}

-- Every run that is asked for has finished.
abbrev finishing : Api World
finishing = record (api plain two) { pipeline_runs = constant PipelineRun finished }

finished-IsSound : IsSound finished.status
finished-IsSound h = cc

finishing-ServesSound : ServesSound finishing
finishing-ServesSound key run w w' h =
    subst (λ (r : PipelineRun). IsSound r.status) (ok-injective (ap (λ p. p.0) h)) finished-IsSound

reconcile-HasShower_example : HasShower plain_library json finishing finishing-ServesSound (
    reconcile plain_library json finishing
      (record { name = "demo"; namespace = "default" })
      (pos 5000)
      (reconciler plain (some (shower "one")))
      (some finished))
reconcile-HasShower_example =
    reconcile-HasShower plain_library json finishing finishing-ServesSound
      (record { name = "demo"; namespace = "default" }) (pos 5000)
      (reconciler plain (some (shower "one"))) (some finished) refl

reconcile-stale_example :
    Returns (KeepsReply plain_library json finishing finishing-ServesSound (shower "old")) (
      reconcile plain_library json finishing
        (record { name = "demo"; namespace = "default" })
        (pos 5000)
        (reconciler plain (some (shower "old")))
        (some finished))
unfolding sprintf
reconcile-stale_example =
    reconcile-stale plain_library json finishing finishing-ServesSound
      (record { name = "demo"; namespace = "default" }) (pos 5000)
      (reconciler plain (some (shower "old"))) plain (shower "old") (shower "one") (shower "two") []
      (some finished) (some finished) (some finished) refl refl refl refl

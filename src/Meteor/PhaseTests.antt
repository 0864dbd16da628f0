-- ===== src/Meteor/PhaseTests.antt =====
-- A Meteor with two runs, one of which has passed.
use mathlib.Core.List.{Memᴰ}
use meteor_operator.Prelude.{
  String, ◌≡◌, ◌≢◌, ◌↔◌, refl, ap, true, none, some, [], ◌∷◌, ◌==◌, All, Bool-cases, inl, inr,
  eq_iff, sprintf, if◌then◌else◌,
}
use meteor_operator.Kube.Meta.{named}
use meteor_operator.Kube.Client.{ok, done}
use meteor_operator.Kube.Conditions.{Condition, find_condition}
use meteor_operator.Kube.Doubles.{plain_library, keyed_ops-AreConditionOps}
use meteor_operator.Tekton.{PipelineRun, RunCondition, no_status}
use meteor_operator.Api.Common.{succeeded}
use meteor_operator.Api.Meteor.{Meteor, aggregate_phase}
use meteor_operator.Meteor.Title.{title}
use meteor_operator.Meteor.State.{Api, Step}
use meteor_operator.Meteor.Samples.{World, api, json, two, meteor, settling, reconciler}
use meteor_operator.Prelude.Int.{pos}
use meteor_operator.Meteor.Reconcile.{reconcile_pipelines}
use meteor_operator.Meteor.Reconcile.Phase.{run_type, passed, AreOf}
use meteor_operator.Meteor.Reconcile.Phase.Loop.{reconcile_pipelines-succeeded_iff}

abbrev shown : String → RunCondition
shown name =
    if name == "jupyterbook"
    then record { type = "Succeeded"; status = "True"; reason = "Completed"; message = "" }
    else record { type = "Succeeded"; status = "Unknown"; reason = "Running"; message = "" }

abbrev run_of : String → PipelineRun
run_of name = record {
  meta = named name "default";
  spec = record { pipeline_ref = ""; params = []; workspaces = [] };
  status = record no_status { conditions = shown name ∷ [] };
}

abbrev building : Meteor
building = meteor (pos 0) (settling ∷ [])

abbrev both_runs : Api World
both_runs = record (api building two) {
  pipeline_runs = record (api building two).pipeline_runs {
    get = λ k w. (
      ok (if k.name == "demo-jupyterbook" then run_of "jupyterbook" else run_of "jupyterhub"),
      w,
    );
  };
}

other_title : run_type "jupyterhub" ≢ run_type "jupyterbook"
unfolding title sprintf
other_title e = cc

settling_lem :
    (t : String) (c : Condition)
    → find_condition t (settling ∷ []) ≡ some c
    → run_type "jupyterbook" ≡ t
unfolding title sprintf
settling_lem t c h = elim (Bool-cases (settling.type == t)) [
  | inl e ↦ (eq_iff settling.type t).0 e
  | inr e ↦ cc (ap (λ b. if b then some settling else none) e)
]

own : AreOf ("jupyterbook" ∷ "jupyterhub" ∷ []) (settling ∷ [])
own t c h = ("jupyterbook", Memᴰ.head refl, settling_lem t c h)

reconcile_pipelines-succeeded_iff_example :
    (step : Step World) × (reconcile_pipelines plain_library json both_runs
        ("jupyterbook" ∷ "jupyterhub" ∷ [])
        "default"
        (reconciler building none)
        none
      ≡ done step)
    × (step.error ≡ none)
    × ((aggregate_phase step.reconciler.meteor ≡ succeeded)
        ↔ All (λ n. passed (shown n) ≡ true) ("jupyterbook" ∷ "jupyterhub" ∷ []))
unfolding sprintf
reconcile_pipelines-succeeded_iff_example =
    reconcile_pipelines-succeeded_iff plain_library json both_runs "default" none shown
      "jupyterbook" ("jupyterhub" ∷ []) (reconciler building none) keyed_ops-AreConditionOps
      (tt, tt) ((other_title, tt), (tt, tt)) own
      ((run_of "jupyterbook", [], refl, refl), ((run_of "jupyterhub", [], refl, refl), tt))

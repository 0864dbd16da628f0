-- ===== src/Meteor/State.antt =====
-- controllers/meteor/meteor_controller.go: the reconciler's own state, its status updates and its
-- conditions.
use meteor_operator.Prelude.{ℕ, String, Bool, Option, none, List, [], ◌∷◌, sprintf}
use meteor_operator.Prelude.Int.{ℤ}
use meteor_operator.Kube.Client.{Error, Result, ok, err, Resource, Requeue, requeue_now}
use meteor_operator.Kube.Library.{Library}
use meteor_operator.Tekton.{PipelineRun}
use meteor_operator.Api.Meteor.{Meteor, MeteorStatus}
use meteor_operator.Api.Shower.{Shower}
use meteor_operator.Api.Coma.{Coma}
use meteor_operator.Meteor.Title.{title}

-- A call on one of the collectors of controllers/common/metrics.go.
pub data Sample : Type 0 where
  created : (meteor url ref : String) → Sample
  deleted : (meteor url ref : String) → Sample
  phase : (meteor phase : String) → ℕ → Sample
  remaining : (meteor : String) → ℤ → Sample

-- The fields of `MeteorReconciler`. One reconciler serves all Meteors, so `shower` outlives a
-- reconciliation; the samples are those of the process so far, the last one first.
pub record Reconciler : Type 0 where
  pub meteor : Meteor
  pub shower : Option Shower
  pub samples : List Sample

-- What the operator's client gives this controller.
pub record Api (W : Type 0) : Type 0 where
  pub meteors : Resource W Meteor
  pub showers : Resource W Shower
  pub comas : Resource W Coma
  pub pipeline_runs : Resource W PipelineRun

-- How a method that returns an `error` ends.
pub record Step (W : Type 0) : Type 0 where
  pub error : Option Error
  pub reconciler : Reconciler
  pub world : W

-- How a method that returns a `ctrl.Result` and an `error` ends.
pub record Reply (W : Type 0) : Type 0 where
  pub requeue : Requeue
  pub error : Option Error
  pub reconciler : Reconciler
  pub world : W

abbrev pub with_meteor : Reconciler → Meteor → Reconciler
with_meteor r m = record r { meteor = m }

abbrev pub with_status : Reconciler → MeteorStatus → Reconciler
with_status r s = record r { meteor = record r.meteor { status = s } }

-- `RequeueAfter`
abbrev pub requeue_later : Requeue
requeue_later = record { requeue = Bool.false; requeue_after = 10 }

-- An accepted update fills `r.Meteor` with what the server sends back.
abbrev pub after_status_update :
    {W : Type 0} → Reconciler → Option Error → Result Meteor × W → Reply W
after_status_update r original (ok m, w) = record {
  requeue = requeue_later;
  error = original;
  reconciler = with_meteor r m;
  world = w;
}
after_status_update r original (err e, w) = record {
  requeue = requeue_now;
  error = none;
  reconciler = r;
  world = w;
}

abbrev pub update_status_now : {W : Type 0} → Api W → Reconciler → Option Error → W → Reply W
update_status_now api r original w =
    after_status_update r original (api.meteors.update_status r.meteor w)

abbrev pub set_condition :
    Library → Reconciler → (kind name status reason message : String) → Reconciler
set_condition lib r kind name status reason message = with_status r (record r.meteor.status {
  conditions = lib.conditions.set_status_condition r.meteor.status.conditions (record {
    type = sprintf (kind ∷ title name ∷ []);
    status = status;
    observed_generation = r.meteor.meta.generation;
    reason = reason;
    message = message;
  });
})

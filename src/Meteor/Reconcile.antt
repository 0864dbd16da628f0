-- ===== src/Meteor/Reconcile.antt =====
-- controllers/meteor/meteor_controller.go: `Reconcile`. The clock is an argument, one instant for a
-- whole reconciliation.
pub mod Laws
pub mod Shower
pub mod Phase
pub mod Confined
use meteor_operator.Prelude.{
  String, not, ◌&&◌, Bool, Option, none, some, List, [], ◌∷◌, if◌then◌else◌,
}
use meteor_operator.Prelude.Int.{pos, eqb_ℤ}
use meteor_operator.Kube.Meta.{Time, NamespacedName, is_unset}
use meteor_operator.Kube.Client.{
  Error, Result, ok, err, Outcome, done, panic, ◌>>=◌, Requeue, no_requeue, requeue_now,
}
use meteor_operator.Kube.Library.{Library}
use meteor_operator.Api.Common.{phase_text}
use meteor_operator.Api.Meteor.{
  Meteor, MeteorStatus, get_expiration_timestamp, is_ttl_reached, aggregate_phase,
}
use meteor_operator.Meteor.State.{
  Reconciler, Api, Step, Reply, with_meteor, with_status, update_status_now,
}
use meteor_operator.Meteor.Metrics.{metrics_before_reconcile, metrics_after_reconcile}
use meteor_operator.Meteor.Owner.{find_owner_shower}
use meteor_operator.Meteor.Comas.{ensure_finalizers, reconcile_comas}
use meteor_operator.Meteor.Build.{Json}
use meteor_operator.Meteor.Run.{reconcile_pipeline_run}

-- The generation, the phase and the expiration, written into the status.
unfoldable pub refresh_status : Meteor → MeteorStatus
refresh_status m = record m.status {
  observed_generation = m.meta.generation;
  phase = phase_text (aggregate_phase m);
  expiration_timestamp =
      if not (eqb_ℤ m.spec.ttl (pos 0))
      then get_expiration_timestamp m
      else m.status.expiration_timestamp;
}

module _ {W : Type 0} (lib : Library) (json : Json) (api : Api W) where
  abbrev reply : Requeue → Option Error → Reconciler → W → Reply W
  reply requeue error r w = record { requeue = requeue; error = error; reconciler = r; world = w }

  -- After a step of the loop: its error ends the loop.
  abbrev pub continue : (Reconciler → W → Outcome (Step W)) → Step W → Outcome (Step W)
  continue rest step = elim step.error [
    | some _ ↦ done step
    | none ↦ rest step.reconciler step.world
  ]

  -- The loop over the pipelines.
  unfoldable pub reconcile_pipelines :
      List String → (namespace : String) → Reconciler → W → Outcome (Step W)
  unfolding reconcile_pipeline_run
  reconcile_pipelines [] namespace r w = done (record { error = none; reconciler = r; world = w })
  reconcile_pipelines (name ∷ names) namespace r w = do
    step ← reconcile_pipeline_run lib json api r name namespace w
    continue (λ r' w'. reconcile_pipelines names namespace r' w') step

  -- From the Comas on, with the status update at the end.
  unfoldable pub build : NamespacedName → Reconciler → W → Outcome (Reply W)
  unfolding reconcile_comas reconcile_pipelines
  build req r w = do
    comas ← reconcile_comas lib api r w
    step ←
        continue (λ r' w'. reconcile_pipelines r'.meteor.spec.pipelines req.namespace r' w') comas
    done (update_status_now api step.reconciler step.error step.world)

  abbrev pub after_finalizers : NamespacedName → Step W → Outcome (Reply W)
  after_finalizers req step = elim step.error [
    | some e ↦ done (reply no_requeue (some e) step.reconciler step.world)
    | none ↦
        if not (is_unset step.reconciler.meteor.meta.deletion_timestamp)
        then done (reply no_requeue none step.reconciler step.world)
        else build req step.reconciler step.world
  ]

  -- `Delete` was called on a Meteor that has lived its time.
  abbrev pub after_delete : Reconciler → Option Error × W → Outcome (Reply W)
  after_delete r (some e, w) = done (reply requeue_now (some e) r w)
  after_delete r (none, w) = done (reply no_requeue none r w)

  -- From the test of the time to live on.
  unfoldable pub act : NamespacedName → (now : Time) → Reconciler → W → Outcome (Reply W)
  unfolding ensure_finalizers build
  act req now r w =
      if is_ttl_reached r.meteor now && is_unset r.meteor.meta.deletion_timestamp
      then after_delete r (api.meteors.delete r.meteor w)
      else after_finalizers req (ensure_finalizers lib api r w)

  -- An error of `findOwnerShower` is written with the status, and what `UpdateStatusNow` answers is
  -- dropped: the reconciliation goes on.
  abbrev pub after_owner : Step W → Reconciler × W
  after_owner step = elim step.error [
    | none ↦ (step.reconciler, step.world)
    | some e ↦
        let replied = update_status_now api step.reconciler (some e) step.world in
        (replied.reconciler, replied.world)
  ]

  -- The reconciler as `findOwnerShower` finds it.
  unfoldable pub prepare : Reconciler → Meteor → Reconciler
  unfolding metrics_before_reconcile refresh_status
  prepare r m =
      let counted = metrics_before_reconcile (with_meteor r m) in
      with_status counted (refresh_status m)

  -- `r.Meteor` is a new object in each reconciliation: what is left in it after an error of `Get` is
  -- not read.
  unfoldable pub on_meteor :
      NamespacedName → (now : Time) → Reconciler → Result Meteor × W → Outcome (Reply W)
  unfolding prepare find_owner_shower act metrics_after_reconcile
  on_meteor req now r (err e, w) =
      done (if e.not_found then reply no_requeue none r w else reply requeue_now (some e) r w)
  on_meteor req now r (ok m, w) =
      let (r', w') = after_owner (find_owner_shower lib api (prepare r m) w) in
      act req now (metrics_after_reconcile r' now) w'

  unfoldable pub reconcile : NamespacedName → (now : Time) → Reconciler → W → Outcome (Reply W)
  unfolding on_meteor
  reconcile req now r w = on_meteor req now r (api.meteors.get req w)

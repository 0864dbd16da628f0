-- ===== src/Meteor/Metrics.antt =====
-- controllers/common/metrics.go: the two functions that are called around a reconciliation. The
-- clock is an argument.
use meteor_operator.Prelude.{not, [], ◌∷◌, ◌++◌, if◌then◌else◌}
use meteor_operator.Kube.Meta.{Time, is_zero, is_unset}
use meteor_operator.Api.Meteor.{get_remaining_ttl}
use meteor_operator.Meteor.State.{created, deleted, phase, remaining, Reconciler}

unfoldable pub metrics_before_reconcile : Reconciler → Reconciler
metrics_before_reconcile r =
    let m = r.meteor in
    record r {
      samples =
          (if not (is_unset m.meta.deletion_timestamp)
            then deleted m.meta.name m.spec.url m.spec.ref ∷ []
            else [])
          ++ phase m.meta.name m.status.phase 0
            ∷ (if is_zero m.status.expiration_timestamp
                then created m.meta.name m.spec.url m.spec.ref ∷ []
                else [])
          ++ r.samples;
    }

unfoldable pub metrics_after_reconcile : Reconciler → (now : Time) → Reconciler
metrics_after_reconcile r now =
    let m = r.meteor in
    record r {
      samples =
          phase m.meta.name m.status.phase 1
          ∷ remaining m.meta.name (get_remaining_ttl m now)
          ∷ r.samples;
    }

-- ===== src/Meteor/Reconcile/Laws.antt =====
-- Whole reconciliations of a Meteor.
use meteor_operator.Prelude.{
  ℕ, ◌*◌, ◌≤◌, ◌<◌, String, ◌≡◌, refl, true, false, Option, none, some, List, [], ◌∷◌,
}
use meteor_operator.Prelude.Int.{pos, ◌+ℤ◌, ◌<ℤ◌}
use meteor_operator.Kube.Meta.{Time, NamespacedName, TypeMeta, ObjectMeta, is_unset}
use meteor_operator.Kube.Client.{Error, ok, Outcome, panic, Ends-bind, Ends-done}
use meteor_operator.Kube.Library.{Library}
use meteor_operator.Api.Meteor.{Meteor, second, is_ttl_reached}
use meteor_operator.Api.Meteor.Laws.{max_ttl, is_ttl_reached_iff, is_ttl_reached-zero}
use meteor_operator.Api.Shower.{Shower}
use meteor_operator.Meteor.Slices.{contains_string}
use meteor_operator.Meteor.State.{Reconciler, Api, Step}
use meteor_operator.Meteor.Metrics.{metrics_before_reconcile, metrics_after_reconcile}
use meteor_operator.Meteor.Owner.{find_owner_shower, after_list, own, choose_shower}
use meteor_operator.Meteor.Comas.{finalizer, reconcile_comas}
use meteor_operator.Meteor.Comas.Laws.{ensure_finalizers-idle}
use meteor_operator.Meteor.Build.{Json}
use meteor_operator.Meteor.Run.{reconcile_pipeline_run}
use meteor_operator.Meteor.Run.Laws.Tidy.{IsTidy, StaysTidy, reconcile_pipeline_run-StaysTidy}
use meteor_operator.Meteor.Reconcile.{
  continue, reconcile_pipelines, build, act, after_delete, prepare, on_meteor, reconcile,
}

module _ {W : Type 0} (lib : Library) (json : Json) (api : Api W) where
  continue-StaysTidy :
      (rest : Reconciler → W → Outcome (Step W))
      → ((r : Reconciler) (w : W) → IsTidy r.meteor.status.stage → StaysTidy (rest r w))
      → (error : Option Error) → (r : Reconciler) → (w : W) → IsTidy r.meteor.status.stage
      → StaysTidy (continue lib json api rest (record { error = error; reconciler = r; world = w }))
  continue-StaysTidy rest keep none r w t = keep r w t
  continue-StaysTidy rest keep (some e) r w t = t

  -- No list of stages names a run twice after the loop over the pipelines, when none did before.
  pub reconcile_pipelines-StaysTidy :
      (names : List String) (namespace : String) (r : Reconciler) (w : W)
      → IsTidy r.meteor.status.stage
      → StaysTidy (reconcile_pipelines lib json api names namespace r w)
  unfolding reconcile_pipelines
  reconcile_pipelines-StaysTidy [] namespace r w t = t
  reconcile_pipelines-StaysTidy (name ∷ names) namespace r w t =
      Ends-bind _ (reconcile_pipeline_run lib json api r name namespace w) _ (λ step e.
        continue-StaysTidy (λ r' w'. reconcile_pipelines lib json api names namespace r' w')
          (λ r' w'. reconcile_pipelines-StaysTidy names namespace r' w') step.error step.reconciler
          step.world
          (Ends-done _ _ (reconcile_pipeline_run-StaysTidy lib json api r name namespace w t) e))

  act-without_shower :
      (req : NamespacedName) (now : Time) (r : Reconciler) (w : W)
      → r.shower ≡ none
      → is_ttl_reached r.meteor now ≡ false
      → is_unset r.meteor.meta.deletion_timestamp ≡ true
      → contains_string r.meteor.meta.finalizers finalizer ≡ true
      → act lib json api req now r w ≡ panic
  unfolding act build reconcile_comas
  act-without_shower req now r w s t d f = rw (t, ensure_finalizers-idle lib api r w d f, d, s) refl

  -- A reconciliation that lists no Shower, with none left from before, panics at a Meteor that stays
  -- when the server accepts the status: a Meteor with its finalizer, without a time to live, and not
  -- being deleted.
  pub reconcile-without_shower :
      (req : NamespacedName) (now : Time) (r : Reconciler) (m m' : Meteor) (w w₁ w₂ w₃ : W)
      → api.meteors.get req w ≡ (ok m, w₁)
      → api.showers.list w₁ ≡ (ok [], w₂)
      → r.shower ≡ none
      → api.meteors.update_status (prepare lib json api r m).meteor w₂ ≡ (ok m', w₃)
      → m'.spec.ttl ≡ pos 0
      → is_unset m'.meta.deletion_timestamp ≡ true
      → contains_string m'.meta.finalizers finalizer ≡ true
      → reconcile lib json api req now r w ≡ panic
  unfolding reconcile on_meteor find_owner_shower after_list metrics_after_reconcile
  reconcile-without_shower req now r m m' w w₁ w₂ w₃ g l s u t d f =
      rw (g, l, u) (act-without_shower req now _ w₃ s (is_ttl_reached-zero _ now t) d f)

-- `SetControllerReference` writes the owner references only, as its documentation says.
abbrev pub KeepsTimes : Library → Type 0
KeepsTimes lib =
    (kind : TypeMeta) (owner meta : ObjectMeta)
    → ((lib.set_controller_reference kind owner meta).creation_timestamp ≡ meta.creation_timestamp)
      × ((lib.set_controller_reference kind owner meta).deletion_timestamp
          ≡ meta.deletion_timestamp)

module _ {W : Type 0} (lib : Library) (json : Json) (api : Api W) where
  -- The reconciler that `findOwnerShower` leaves for a Meteor with the only Shower.
  abbrev pub owned_by : Reconciler → Meteor → Shower → W → Reconciler
  owned_by r m s w = (own lib api (prepare lib json api r m) (some s) w).reconciler

  act-expired :
      (req : NamespacedName) (now : Time) (r : Reconciler) (w : W)
      → is_ttl_reached r.meteor now ≡ true
      → is_unset r.meteor.meta.deletion_timestamp ≡ true
      → act lib json api req now r w ≡ after_delete lib json api r (api.meteors.delete r.meteor w)
  unfolding act
  act-expired req now r w t d = rw (t, d) refl

  -- A Meteor whose time to live, of 1 to `max_ttl` seconds, is over and that is not being deleted yet
  -- is deleted, with the only Shower as its owner, and nothing else is done: the answer is that of
  -- the deletion. `SetControllerReference` keeps the times in the metadata.
  pub reconcile-expired :
      (req : NamespacedName) (now : Time) (r : Reconciler) (m : Meteor) (s : Shower) (n : ℕ)
      (w w₁ w₂ : W)
      → KeepsTimes lib
      → api.meteors.get req w ≡ (ok m, w₁)
      → api.showers.list w₁ ≡ (ok (s ∷ []), w₂)
      → m.spec.ttl ≡ pos n
      → 0 < n
      → n ≤ max_ttl
      → m.meta.creation_timestamp +ℤ pos (n * second) <ℤ now
      → is_unset m.meta.deletion_timestamp ≡ true
      → reconcile lib json api req now r w
        ≡ after_delete lib json api
            (metrics_after_reconcile (owned_by r m s w₂) now)
            (api.meteors.delete (owned_by r m s w₂).meteor w₂)
  unfolding reconcile on_meteor find_owner_shower after_list choose_shower own prepare
      metrics_before_reconcile metrics_after_reconcile
  reconcile-expired req now r m s n w w₁ w₂ keeps g l t p b over d =
      rw (g, l)
        (act-expired req now _ w₂
          ((is_ttl_reached_iff (owned_by r m s w₂).meteor now n t p b).1
            (rw ((keeps s.type_meta s.meta m.meta).0) over))
          (rw ((keeps s.type_meta s.meta m.meta).1) d))

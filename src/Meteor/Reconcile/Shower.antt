-- ===== src/Meteor/Reconcile/Shower.antt =====
-- The Shower that the reconciler of Meteors keeps from one reconciliation to the next.
use meteor_operator.Prelude.{
  String, ◌≡◌, refl, ap, ◌∙◌, ◌&&◌, not, true, Option, none, some, List, [], ◌∷◌, arith, map_get,
  Bool-cases, inl, inr,
}
use meteor_operator.Kube.Meta.{Time, NamespacedName, is_unset}
use meteor_operator.Kube.Client.{
  Error, Result, ok, err, Outcome, Returns, Returns-if, Returns-bind, Returns-map,
}
use meteor_operator.Kube.Library.{Library}
use meteor_operator.Api.Meteor.{Meteor, is_ttl_reached}
use meteor_operator.Api.Shower.{Shower}
use meteor_operator.Meteor.State.{Sample, Reconciler, Api, Step, Reply, after_status_update}
use meteor_operator.Meteor.Metrics.{metrics_after_reconcile, metrics_before_reconcile}
use meteor_operator.Meteor.Owner.{
  by_label, choose_shower, own, after_list, find_owner_shower, selector_key,
}
use meteor_operator.Meteor.Owner.Laws.{is_some, pick_lem}
use meteor_operator.Meteor.Comas.{reconcile_comas, ensure_finalizers}
use meteor_operator.Meteor.Comas.Laws.Shower.{reconcile_services-shower, ensure_finalizers-shower}
use meteor_operator.Meteor.Build.{Json}
use meteor_operator.Meteor.Run.{reconcile_pipeline_run}
use meteor_operator.Meteor.Run.Laws.Shower.{KeepsShower, ServesSound, reconcile_pipeline_run-shower}
use meteor_operator.Meteor.Reconcile.{
  continue, reconcile_pipelines, build, act, after_delete, after_finalizers, after_owner, prepare,
  on_meteor, reconcile,
}

module _ {W : Type 0} (lib : Library) (json : Json) (api : Api W) where
  status_update-shower :
      (r : Reconciler) (e : Option Error) (answer : Result Meteor × W)
      → (after_status_update r e answer).reconciler.shower ≡ r.shower
  status_update-shower r e (ok m, w) = refl
  status_update-shower r e (err _, w) = refl

  by_label-keeps :
      (label : Option String) (before : Option Shower) (s : Shower) (ss : List Shower)
      → is_some before ≡ true
      → is_some (by_label label before (s ∷ ss)) ≡ true
  by_label-keeps none before s ss h = h
  by_label-keeps (some v) before s ss h = ap is_some (pick_lem v before s ss) ∙ ground arith

  choose_shower-is_some :
      (m : Meteor) (before : Option Shower) (s : Shower) (ss : List Shower)
      → is_some before ≡ true
      → is_some (choose_shower m before (s ∷ ss)) ≡ true
  unfolding choose_shower
  choose_shower-is_some m before s [] h = refl
  choose_shower-is_some m before s (t ∷ ss) h =
      by_label-keeps (map_get m.meta.labels selector_key) before s (t ∷ ss) h

  own-is_some :
      (r : Reconciler) (o : Option Shower) (w : W)
      → is_some o ≡ true
      → is_some (own lib api r o w).reconciler.shower ≡ true
  unfolding own
  own-is_some r none w h = h
  own-is_some r (some s) w h = refl

  after_list-is_some :
      (r : Reconciler) (answer : Result (List Shower)) (w : W)
      → is_some r.shower ≡ true
      → is_some (after_list lib api r answer w).reconciler.shower ≡ true
  unfolding after_list
  after_list-is_some r (err e) w h = h
  after_list-is_some r (ok []) w h = h
  after_list-is_some r (ok (s ∷ ss)) w h =
      own-is_some r _ w (choose_shower-is_some r.meteor r.shower s ss h)

  after_owner-shower :
      (error : Option Error) (r : Reconciler) (w : W)
      → (after_owner lib json api (record { error = error; reconciler = r; world = w })).0.shower
        ≡ r.shower
  after_owner-shower none r w = refl
  after_owner-shower (some e) r w =
      status_update-shower r (some e) (api.meteors.update_status r.meteor w)

module _ {W : Type 0} (lib : Library) (json : Json) (api : Api W) (sound : ServesSound api) where
  module _ (s : Shower) where
    abbrev Keeps : Step W → Type 0
    Keeps step = step.reconciler.shower ≡ some s

    abbrev pub KeepsReply : Reply W → Type 0
    KeepsReply reply = reply.reconciler.shower ≡ some s

    continue-shower :
        (rest : Reconciler → W → Outcome (Step W)) (error : Option Error) (r : Reconciler) (w : W)
        → ((r' : Reconciler) (w : W) → r'.shower ≡ some s → KeepsShower s (rest r' w))
        → r.shower ≡ some s
        → KeepsShower s
            (continue lib json api rest (record { error = error; reconciler = r; world = w }))
    continue-shower rest none r w keep h = keep r w h
    continue-shower rest (some e) r w keep h = h

    reconcile_pipelines-shower :
        (names : List String) (namespace : String) (r : Reconciler) (w : W)
        → r.shower ≡ some s
        → KeepsShower s (reconcile_pipelines lib json api names namespace r w)
    unfolding reconcile_pipelines
    reconcile_pipelines-shower [] namespace r w h = h
    reconcile_pipelines-shower (name ∷ names) namespace r w h =
        Returns-bind Keeps Keeps (reconcile_pipeline_run lib json api r name namespace w) _
          (reconcile_pipeline_run-shower lib json api s r name namespace w sound h)
          (λ step k.
            continue-shower (λ r' w'. reconcile_pipelines lib json api names namespace r' w')
              step.error step.reconciler step.world (reconcile_pipelines-shower names namespace) k)

    reconcile_comas-shower :
        (m : Meteor) (o : Option Shower) (samples : List Sample) (w : W)
        → o ≡ some s
        → KeepsShower s
            (reconcile_comas lib api (record { meteor = m; shower = o; samples = samples }) w)
    unfolding reconcile_comas
    reconcile_comas-shower m none samples w h = cc
    reconcile_comas-shower m (some t) samples w h =
        reconcile_services-shower lib api t.spec.external_services
          (record { meteor = m; shower = some t; samples = samples }) w
        ∙ h

    build-shower :
        (req : NamespacedName) (r : Reconciler) (w : W)
        → r.shower ≡ some s
        → Returns KeepsReply (build lib json api req r w)
    unfolding build
    build-shower req r w h =
        Returns-bind Keeps KeepsReply (reconcile_comas lib api r w) _
          (reconcile_comas-shower r.meteor r.shower r.samples w h)
          (λ comas k.
            Returns-bind Keeps KeepsReply _ _
              (continue-shower
                (λ r' w'.
                  reconcile_pipelines lib json api r'.meteor.spec.pipelines req.namespace r' w')
                comas.error comas.reconciler comas.world
                (λ r' w'. reconcile_pipelines-shower r'.meteor.spec.pipelines req.namespace r' w')
                k)
              (λ step k'. status_update-shower lib json api step.reconciler step.error _ ∙ k'))

    after_finalizers-shower :
        (req : NamespacedName) (error : Option Error) (r : Reconciler) (w : W)
        → r.shower ≡ some s
        → Returns KeepsReply (
            after_finalizers lib json api req (record { error = error; reconciler = r; world = w }))
    after_finalizers-shower req (some e) r w h = h
    after_finalizers-shower req none r w h =
        Returns-if KeepsReply (not (is_unset r.meteor.meta.deletion_timestamp)) _ _ h
          (build-shower req r w h)

    after_delete-shower :
        (r : Reconciler) (answer : Option Error × W)
        → r.shower ≡ some s
        → Returns KeepsReply (after_delete lib json api r answer)
    after_delete-shower r (some e, w) h = h
    after_delete-shower r (none, w) h = h

    act-shower :
        (req : NamespacedName) (now : Time) (r : Reconciler) (w : W)
        → r.shower ≡ some s
        → Returns KeepsReply (act lib json api req now r w)
    unfolding act
    act-shower req now r w h =
        let step = ensure_finalizers lib api r w in
        Returns-if KeepsReply
          (is_ttl_reached r.meteor now && is_unset r.meteor.meta.deletion_timestamp) _ _
          (after_delete-shower r (api.meteors.delete r.meteor w) h)
          (after_finalizers-shower req step.error step.reconciler step.world
            (ensure_finalizers-shower lib api r w ∙ h))

  unlabelled-shower :
      (r : Reconciler) (s t₀ t : Shower) (ts : List Shower) (w : W)
      → map_get r.meteor.meta.labels selector_key ≡ none
      → r.shower ≡ some s
      → (after_list lib api r (ok (t₀ ∷ t ∷ ts)) w).error ≡ none
        × ((after_list lib api r (ok (t₀ ∷ t ∷ ts)) w).reconciler.shower ≡ some s)
  unfolding after_list choose_shower own
  unlabelled-shower r s t₀ t ts w l h = rw (l, h) (refl, refl)

  -- It returns, and the reply's reconciler has a Shower.
  abbrev pub HasShower : Outcome (Reply W) → Type 0
  HasShower = Returns (λ reply. is_some reply.reconciler.shower ≡ true)

  act-HasShower :
      (req : NamespacedName) (now : Time) (r : Reconciler) (o : Option Shower) (w : W)
      → r.shower ≡ o
      → is_some o ≡ true
      → HasShower (act lib json api req now r w)
  act-HasShower req now r none w e h = cc
  act-HasShower req now r (some s) w e h =
      Returns-map _ _ (act lib json api req now r w) (act-shower s req now r w e)
        (λ reply k. ap is_some k)

  on_meteor-HasShower :
      (req : NamespacedName) (now : Time) (r : Reconciler) (answer : Result Meteor × W)
      → is_some r.shower ≡ true
      → HasShower (on_meteor lib json api req now r answer)
  unfolding on_meteor find_owner_shower prepare metrics_before_reconcile metrics_after_reconcile
  on_meteor-HasShower req now r (err e, w) h = elim (Bool-cases e.not_found) [
    | inl n ↦ rw n h
    | inr n ↦ rw n h
  ]
  on_meteor-HasShower req now r (ok m, w) h =
      let found = find_owner_shower lib api (prepare lib json api r m) w in
      let owner = after_owner lib json api found in
      act-HasShower req now (metrics_after_reconcile owner.0 now) owner.0.shower owner.1 refl (
        ap is_some (after_owner-shower lib json api found.error found.reconciler found.world)
        ∙ after_list-is_some lib json api (prepare lib json api r m) (api.showers.list w).0
            (api.showers.list w).1 h)

  -- Once the reconciler of Meteors has a Shower, and against a cluster whose ended runs carry
  -- conditions, every reconciliation returns without a panic, and its reconciler has a Shower again:
  -- whatever the cluster answers and whichever branch is taken.
  pub reconcile-HasShower :
      (req : NamespacedName) (now : Time) (r : Reconciler) (w : W)
      → is_some r.shower ≡ true
      → HasShower (reconcile lib json api req now r w)
  unfolding reconcile
  reconcile-HasShower req now r w h = on_meteor-HasShower req now r (api.meteors.get req w) h

  owned-shower :
      (req : NamespacedName) (now : Time) (s : Shower) (found : Step W)
      → found.reconciler.shower ≡ some s
      → let owner = after_owner lib json api found in
        Returns
          (KeepsReply s)
          (act lib json api req now (metrics_after_reconcile owner.0 now) owner.1)
  unfolding metrics_after_reconcile
  owned-shower req now s found h =
      let owner = after_owner lib json api found in
      act-shower s req now (metrics_after_reconcile owner.0 now) owner.1
        (after_owner-shower lib json api found.error found.reconciler found.world ∙ h)

  -- A Meteor without the label gets, where several Showers are listed, the Shower that the reconciler
  -- holds from before: against a cluster whose ended runs carry conditions, its reconciliation does not
  -- panic, and has that Shower at its end, whether or not it is listed.
  pub reconcile-stale :
      (req : NamespacedName) (now : Time) (r : Reconciler) (m : Meteor) (s t₀ t : Shower)
      (ts : List Shower) (w w₁ w₂ : W)
      → api.meteors.get req w ≡ (ok m, w₁)
      → api.showers.list w₁ ≡ (ok (t₀ ∷ t ∷ ts), w₂)
      → map_get m.meta.labels selector_key ≡ none
      → r.shower ≡ some s
      → Returns (KeepsReply s) (reconcile lib json api req now r w)
  unfolding reconcile on_meteor find_owner_shower prepare metrics_before_reconcile
  reconcile-stale req now r m s t₀ t ts w w₁ w₂ got listed l h =
      rw (got, listed)
        (owned-shower req now s
          (after_list lib api (prepare lib json api r m) (ok (t₀ ∷ t ∷ ts)) w₂)
          (unlabelled-shower (prepare lib json api r m) s t₀ t ts w₂ l h).1)

-- ===== src/Meteor/Reconcile/Confined.antt =====
-- What a reconciliation of a Meteor writes.
use meteor_operator.Prelude.{
  String, ◌≡◌, refl, ap, ◌∙◌, ◌&&◌, not, Option, none, some, List, [], ◌∷◌, Bool-cases, inl, inr,
}
use meteor_operator.Kube.Meta.{Time, NamespacedName, is_unset}
use meteor_operator.Kube.Client.{
  Error, Result, ok, err, Outcome, Ends, Ends-if, Ends-bind, Ends-done,
}
use meteor_operator.Kube.Library.{Library, KeepsKey}
use meteor_operator.Api.Meteor.{Meteor, is_ttl_reached}
use meteor_operator.Api.Shower.{Shower}
use meteor_operator.Meteor.State.{Sample, Reconciler, Api, Step, Reply, after_status_update}
use meteor_operator.Meteor.Permits.{Permits, KeepsName, name_of}
use meteor_operator.Meteor.Metrics.{metrics_after_reconcile, metrics_before_reconcile}
use meteor_operator.Meteor.Owner.{choose_shower, own, after_list, find_owner_shower}
use meteor_operator.Meteor.Comas.{reconcile_comas, ensure_finalizers}
use meteor_operator.Meteor.Comas.Laws.Confined.{
  reconcile_services-IsConfined, ensure_finalizers-IsConfined,
}
use meteor_operator.Meteor.Build.{Json}
use meteor_operator.Meteor.Run.{reconcile_pipeline_run}
use meteor_operator.Meteor.Run.Laws.Confined.{EndsConfined, reconcile_pipeline_run-IsConfined}
use meteor_operator.Meteor.Reconcile.{
  continue, reconcile_pipelines, build, act, after_delete, after_finalizers, after_owner, prepare,
  on_meteor, reconcile,
}

module _ {W : Type 0} (lib : Library) (keeps : KeepsKey lib) (json : Json) (api : Api W)
    (named : KeepsName api) (P : W → Type 0) where
  -- Where it ends, the statement holds.
  abbrev pub EndsKept : Outcome (Reply W) → Type 0
  EndsKept = Ends (λ reply. P reply.world)

  module _ (owner namespace : String) (permits : Permits P api owner namespace) where
    abbrev Confined : Outcome (Step W) → Type 0
    Confined = EndsConfined lib keeps json api P owner namespace permits

    continue-IsConfined :
        (rest : Reconciler → W → Outcome (Step W)) (error : Option Error) (r : Reconciler) (w : W)
        → ((r' : Reconciler) (w' : W) → name_of r' ≡ owner → P w' → Confined (rest r' w'))
        → name_of r ≡ owner
        → P w
        → Confined
            (continue lib json api rest (record { error = error; reconciler = r; world = w }))
    continue-IsConfined rest none r w keep n p = keep r w n p
    continue-IsConfined rest (some e) r w keep n p = (p, n)

    reconcile_pipelines-IsConfined :
        (names : List String) (r : Reconciler) (w : W)
        → name_of r ≡ owner
        → P w
        → Confined (reconcile_pipelines lib json api names namespace r w)
    unfolding reconcile_pipelines
    reconcile_pipelines-IsConfined [] r w n p = (p, n)
    reconcile_pipelines-IsConfined (name ∷ names) r w n p =
        Ends-bind _ (reconcile_pipeline_run lib json api r name namespace w) _ (λ step e.
          let h =
            Ends-done (λ (t : Step W). P t.world × (name_of t.reconciler ≡ owner)) _
              (reconcile_pipeline_run-IsConfined lib keeps json api P owner namespace permits r name
                w n p)
              e in
          continue-IsConfined (λ r' w'. reconcile_pipelines lib json api names namespace r' w')
            step.error step.reconciler step.world (reconcile_pipelines-IsConfined names) h.1 h.0)

    reconcile_comas-IsConfined :
        (m : Meteor) (o : Option Shower) (samples : List Sample) (w : W)
        → m.meta.name ≡ owner
        → P w
        → Confined
            (reconcile_comas lib api (record { meteor = m; shower = o; samples = samples }) w)
    unfolding reconcile_comas
    reconcile_comas-IsConfined m none samples w n p = tt
    reconcile_comas-IsConfined m (some s) samples w n p =
        reconcile_services-IsConfined lib api P owner namespace permits named
          s.spec.external_services (record { meteor = m; shower = some s; samples = samples }) w n p

    updated-keeps :
        (r : Reconciler) (e : Option Error) (answer : Result Meteor × W)
        → P answer.1
        → P (after_status_update r e answer).world
    updated-keeps r e (ok m, w) p = p
    updated-keeps r e (err _, w) p = p

    updated-name :
        (r : Reconciler) (e : Option Error) (w : W) (answer : Result Meteor × W)
        → api.meteors.update_status r.meteor w ≡ answer
        → name_of r ≡ owner
        → name_of (after_status_update r e answer).reconciler ≡ owner
    updated-name r e w (ok m, w') h n = named.status-name r.meteor m w w' h ∙ n
    updated-name r e w (err _, w') h n = n

    build-keeps :
        (req : NamespacedName) (r : Reconciler) (w : W)
        → req.namespace ≡ namespace
        → name_of r ≡ owner
        → P w
        → EndsKept (build lib json api req r w)
    unfolding build
    build-keeps req r w q n p = Ends-bind _ (reconcile_comas lib api r w) _ (λ comas e.
        let h =
          Ends-done (λ (t : Step W). P t.world × (name_of t.reconciler ≡ owner)) _
            (reconcile_comas-IsConfined r.meteor r.shower r.samples w n p) e in
        Ends-bind _ _ _ (λ step e'.
          let h' =
            Ends-done (λ (t : Step W). P t.world × (name_of t.reconciler ≡ owner)) _
              (continue-IsConfined
                (λ r' w'.
                  reconcile_pipelines lib json api r'.meteor.spec.pipelines req.namespace r' w')
                comas.error comas.reconciler comas.world
                (λ r' w' n' p'.
                  rw q (reconcile_pipelines-IsConfined r'.meteor.spec.pipelines r' w' n' p'))
                h.1 h.0)
              e' in
          updated-keeps step.reconciler step.error _
            (permits.meteor_status step.reconciler.meteor step.world h'.1 h'.0)))

    after_finalizers-keeps :
        (req : NamespacedName) (error : Option Error) (r : Reconciler) (w : W)
        → req.namespace ≡ namespace
        → name_of r ≡ owner
        → P w
        → EndsKept (
            after_finalizers lib json api req (record { error = error; reconciler = r; world = w }))
    after_finalizers-keeps req (some e) r w q n p = p
    after_finalizers-keeps req none r w q n p =
        Ends-if _ (not (is_unset r.meteor.meta.deletion_timestamp)) _ _ p
          (build-keeps req r w q n p)

    deleted-keeps :
        (r : Reconciler) (answer : Option Error × W)
        → P answer.1
        → EndsKept (after_delete lib json api r answer)
    deleted-keeps r (some e, w) p = p
    deleted-keeps r (none, w) p = p

    act-keeps :
        (req : NamespacedName) (now : Time) (r : Reconciler) (w : W)
        → req.namespace ≡ namespace
        → name_of r ≡ owner
        → P w
        → EndsKept (act lib json api req now r w)
    unfolding act
    act-keeps req now r w q n p =
        let step = ensure_finalizers lib api r w in
        let h = ensure_finalizers-IsConfined lib api P owner namespace permits named r w n p in
        Ends-if _ (is_ttl_reached r.meteor now && is_unset r.meteor.meta.deletion_timestamp) _ _
          (deleted-keeps r (api.meteors.delete r.meteor w) (permits.meteor_delete r.meteor w n p))
          (after_finalizers-keeps req step.error step.reconciler step.world q h.1 h.0)

    own-IsConfined :
        (r : Reconciler) (o : Option Shower) (w : W)
        → name_of r ≡ owner
        → P w
        → P (own lib api r o w).world × (name_of (own lib api r o w).reconciler ≡ owner)
    unfolding own
    own-IsConfined r none w n p = (p, n)
    own-IsConfined r (some s) w n p =
        (p, ap (λ k. k.name) (keeps s.type_meta s.meta r.meteor.meta) ∙ n)

    after_list-IsConfined :
        (r : Reconciler) (answer : Result (List Shower)) (w : W)
        → name_of r ≡ owner
        → P w
        → P (after_list lib api r answer w).world
          × (name_of (after_list lib api r answer w).reconciler ≡ owner)
    unfolding after_list
    after_list-IsConfined r (err e) w n p = (p, n)
    after_list-IsConfined r (ok []) w n p = (p, n)
    after_list-IsConfined r (ok (s ∷ ss)) w n p =
        own-IsConfined r (choose_shower r.meteor r.shower (s ∷ ss)) w n p

    after_owner-IsConfined :
        (error : Option Error) (r : Reconciler) (w : W)
        → name_of r ≡ owner
        → P w
        → let found =
            after_owner lib json api (record { error = error; reconciler = r; world = w }) in
          P found.1 × (name_of found.0 ≡ owner)
    after_owner-IsConfined none r w n p = (p, n)
    after_owner-IsConfined (some e) r w n p = (
      updated-keeps r (some e) (api.meteors.update_status r.meteor w)
          (permits.meteor_status r.meteor w n p),
      updated-name r (some e) w _ refl n,
    )

    on_meteor-keeps :
        (req : NamespacedName) (now : Time) (r : Reconciler) (m : Meteor) (w : W)
        → req.namespace ≡ namespace
        → m.meta.name ≡ owner
        → P w
        → EndsKept (on_meteor lib json api req now r (ok m, w))
    unfolding on_meteor find_owner_shower prepare metrics_before_reconcile metrics_after_reconcile
    on_meteor-keeps req now r m w q n p =
        let found = find_owner_shower lib api (prepare lib json api r m) w in
        let h =
          after_list-IsConfined (prepare lib json api r m) (api.showers.list w).0
            (api.showers.list w).1 n (permits.shower_list w p) in
        let h' = after_owner-IsConfined found.error found.reconciler found.world h.1 h.0 in
        let owner = after_owner lib json api found in
        act-keeps req now (metrics_after_reconcile owner.0 now) owner.1 q h'.1 h'.0

  got-keeps :
      (req : NamespacedName) (now : Time) (r : Reconciler) (answer : Result Meteor × W)
      → ((m : Meteor) → answer.0 ≡ ok m → Permits P api m.meta.name req.namespace)
      → P answer.1
      → EndsKept (on_meteor lib json api req now r answer)
  unfolding on_meteor
  got-keeps req now r (err e, w) permits p = elim (Bool-cases e.not_found) [
    | inl h ↦ rw h p
    | inr h ↦ rw h p
  ]
  got-keeps req now r (ok m, w) permits p =
      on_meteor-keeps m.meta.name req.namespace (permits m refl) req now r m w refl refl p

-- What a reconciliation of a Meteor may write: a statement on the cluster that is true once the Meteor
-- has been read, and that stays true after reads, after writes and deletions of the Meteors of that
-- name, after status updates and deletions of Comas, after the creation of Comas with the Meteor's
-- name in a named namespace, and after the creation of runs of a pipeline under the pipeline's name
-- for the Meteor in the request's namespace, is true wherever the reconciliation ends. The library's
-- controller reference is taken to leave names alone, and the server to answer a write of a Meteor
-- with that Meteor.
pub reconcile-writes :
    {W : Type 0} (lib : Library) (keeps : KeepsKey lib) (json : Json) (api : Api W)
    (named : KeepsName api) (P : W → Type 0) (req : NamespacedName) (now : Time) (r : Reconciler)
    (w : W)
    → ((m : Meteor) → (api.meteors.get req w).0 ≡ ok m → Permits P api m.meta.name req.namespace)
    → P (api.meteors.get req w).1
    → Ends (λ (reply : Reply W). P reply.world) (reconcile lib json api req now r w)
unfolding reconcile
reconcile-writes lib keeps json api named P req now r w permits p =
    got-keeps lib keeps json api named P req now r (api.meteors.get req w) permits p

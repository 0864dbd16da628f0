-- ===== src/Meteor/Comas/Laws/Confined.antt =====
-- The Comas and the finalizers of a Meteor: what is written.
use meteor_operator.Prelude.{
  String, ◌≡◌, ◌≢◌, refl, ◌∙◌, Option, none, some, List, [], ◌∷◌, ◌==◌, eq_iff, Bool-cases, inl,
  inr,
}
use meteor_operator.Kube.Meta.{NamespacedName, is_unset}
use meteor_operator.Kube.Client.{Error, Result, ok, err}
use meteor_operator.Kube.Library.{Library}
use meteor_operator.Api.Common.{NamespacedOwnerReference}
use meteor_operator.Api.Coma.{Coma}
use meteor_operator.Api.Meteor.{Meteor}
use meteor_operator.Api.Shower.{ExternalServiceSpec}
use meteor_operator.Meteor.Slices.{contains_string, contains_coma}
use meteor_operator.Meteor.State.{Reconciler, Api, Step}
use meteor_operator.Meteor.Permits.{Permits, KeepsName, name_of}
use meteor_operator.Meteor.Comas.{
  bare_coma, finalizer, add_reference, reference_to, is_unprocessed, after_get_coma, visit,
  fetch_coma, reconcile_services, after_delete, delete_all, after_update, update_finalizers,
  release, delete_comas, ensure_finalizers,
}

module _ {W : Type 0} (lib : Library) (api : Api W) (P : W → Type 0) (owner namespace : String)
    (permits : Permits P api owner namespace) (named : KeepsName api) where
  -- The statement holds, and the reconciler still works on the Meteor `owner`.
  abbrev pub IsConfined : Step W → Type 0
  IsConfined step = P step.world × (name_of step.reconciler ≡ owner)

  add_reference-name :
      (r : Reconciler) (ref : NamespacedOwnerReference)
      → name_of (add_reference lib api r ref) ≡ name_of r
  add_reference-name r ref = elim (Bool-cases (contains_coma r.meteor.status.comas ref)) [
    | inl h ↦ rw h refl
    | inr h ↦ rw h refl
  ]

  abbrev coma_key : Reconciler → ExternalServiceSpec → NamespacedName
  coma_key r service = record { name = r.meteor.meta.name; namespace = service.namespace }

  visit-IsConfined :
      (r : Reconciler) (at : String) (rest : Reconciler → W → Step W) (answer : Result Coma × W)
      → name_of r ≡ owner
      → P answer.1
      → ((r' : Reconciler) (w : W) → name_of r' ≡ owner → P w → IsConfined (rest r' w))
      → IsConfined (visit lib api r at rest answer)
  visit-IsConfined r at rest (err e, w) n p keep = (p, n)
  visit-IsConfined r at rest (ok coma, w) n p keep =
      elim (Bool-cases (is_unprocessed lib api coma)) [
        | inl h ↦ rw h (p, n)
        | inr h ↦ rw h (
            keep (add_reference lib api r (reference_to lib api coma at)) _
              (add_reference-name r (reference_to lib api coma at) ∙ n) (permits.coma_status _ w p))
      ]

  fetched-keeps :
      (r : Reconciler) (service : ExternalServiceSpec) (answer : Result Coma × W)
      → name_of r ≡ owner
      → service.namespace ≢ ""
      → P answer.1
      → P (after_get_coma lib api r service answer).1
  fetched-keeps r service (ok coma, w) n d p = p
  fetched-keeps r service (err e, w) n d p = elim (Bool-cases e.not_found) [
    | inl h ↦ rw h (permits.coma_create (bare_coma r.meteor.meta.name service.namespace) w (n, d) p)
    | inr h ↦ rw h p
  ]

  pub reconcile_services-IsConfined :
      (services : List ExternalServiceSpec) (r : Reconciler) (w : W)
      → name_of r ≡ owner
      → P w
      → IsConfined (reconcile_services lib api services r w)
  unfolding reconcile_services
  reconcile_services-IsConfined [] r w n p = (p, n)
  reconcile_services-IsConfined (service ∷ services) r w n p =
      elim (Bool-cases (service.namespace == "")) [
        | inl h ↦ rw h (reconcile_services-IsConfined services r w n p)
        | inr h ↦ rw h (
            visit-IsConfined r service.namespace (reconcile_services lib api services)
              (fetch_coma lib api r service w) n
              (fetched-keeps r service (api.comas.get (coma_key r service) w) n
                (λ e. cc (h, (eq_iff service.namespace "").1 e))
                (permits.coma_get (coma_key r service) w p))
              (λ r' w'. reconcile_services-IsConfined services r' w'))
      ]

  deleted-keeps :
      (rest : W → Option Error × W) (answer : Option Error × W)
      → P answer.1
      → ((w : W) → P w → P (rest w).1)
      → P (after_delete lib api rest answer).1
  deleted-keeps rest (some e, w) p keep = p
  deleted-keeps rest (none, w) p keep = keep w p

  delete_all-keeps :
      (refs : List NamespacedOwnerReference) (w : W) → P w → P (delete_all lib api refs w).1
  unfolding delete_all
  delete_all-keeps [] w p = p
  delete_all-keeps (ref ∷ refs) w p =
      deleted-keeps (delete_all lib api refs) _ (permits.coma_delete _ w p) (delete_all-keeps refs)

  updated-IsConfined :
      (r : Reconciler) (m : Meteor) (w : W) (answer : Result Meteor × W)
      → api.meteors.update m w ≡ answer
      → m.meta.name ≡ owner
      → P answer.1
      → IsConfined (after_update lib api r m answer)
  updated-IsConfined r m w (ok m', w') e n p = (p, named.update-name m m' w w' e ∙ n)
  updated-IsConfined r m w (err _, w') e n p = (p, n)

  update_finalizers-IsConfined :
      (r : Reconciler) (fs : List String) (w : W)
      → name_of r ≡ owner
      → P w
      → IsConfined (update_finalizers lib api r fs w)
  update_finalizers-IsConfined r fs w n p =
      updated-IsConfined r _ w _ refl n (permits.meteor_update _ w n p)

  release-IsConfined :
      (r : Reconciler) (answer : Option Error × W)
      → name_of r ≡ owner
      → P answer.1
      → IsConfined (release lib api r answer)
  release-IsConfined r (some e, w) n p = (p, n)
  release-IsConfined r (none, w) n p = update_finalizers-IsConfined r _ w n p

  pub ensure_finalizers-IsConfined :
      (r : Reconciler) (w : W)
      → name_of r ≡ owner
      → P w
      → IsConfined (ensure_finalizers lib api r w)
  unfolding ensure_finalizers delete_comas
  ensure_finalizers-IsConfined r w n p =
      elim (Bool-cases (is_unset r.meteor.meta.deletion_timestamp)) [
        | inl d ↦ elim (Bool-cases (contains_string r.meteor.meta.finalizers finalizer)) [
          | inl f ↦ rw (d, f) (p, n)
          | inr f ↦ rw (d, f) (update_finalizers-IsConfined r _ w n p)
        ]
        | inr d ↦ elim (Bool-cases (contains_string r.meteor.meta.finalizers finalizer)) [
          | inl f ↦
              rw (d, f) (release-IsConfined r _ n (delete_all-keeps r.meteor.status.comas w p))
          | inr f ↦ rw (d, f) (p, n)
        ]
      ]

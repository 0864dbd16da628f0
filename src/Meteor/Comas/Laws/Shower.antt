-- ===== src/Meteor/Comas/Laws/Shower.antt =====
-- The Shower of the reconciler through its work on Comas and finalizers.
use meteor_operator.Prelude.{
  String, ◌≡◌, refl, ◌∙◌, Option, none, some, List, [], ◌∷◌, ◌==◌, Bool-cases, inl, inr,
}
use meteor_operator.Kube.Meta.{is_unset}
use meteor_operator.Kube.Client.{Error, Result, ok, err}
use meteor_operator.Kube.Library.{Library}
use meteor_operator.Api.Common.{NamespacedOwnerReference}
use meteor_operator.Api.Coma.{Coma}
use meteor_operator.Api.Meteor.{Meteor}
use meteor_operator.Api.Shower.{ExternalServiceSpec}
use meteor_operator.Meteor.Slices.{contains_string, contains_coma}
use meteor_operator.Meteor.State.{Reconciler, Api, Step}
use meteor_operator.Meteor.Comas.{
  finalizer, add_reference, reference_to, is_unprocessed, visit, fetch_coma, reconcile_services,
  after_update, release, delete_comas, ensure_finalizers,
}

module _ {W : Type 0} (lib : Library) (api : Api W) where
  add_reference-shower :
      (r : Reconciler) (ref : NamespacedOwnerReference)
      → (add_reference lib api r ref).shower ≡ r.shower
  add_reference-shower r ref = elim (Bool-cases (contains_coma r.meteor.status.comas ref)) [
    | inl h ↦ rw h refl
    | inr h ↦ rw h refl
  ]

  visit-shower :
      (r : Reconciler) (namespace : String) (rest : Reconciler → W → Step W)
      (answer : Result Coma × W)
      → ((r' : Reconciler) (w : W) → (rest r' w).reconciler.shower ≡ r'.shower)
      → (visit lib api r namespace rest answer).reconciler.shower ≡ r.shower
  visit-shower r namespace rest (err e, w) keep = refl
  visit-shower r namespace rest (ok coma, w) keep =
      elim (Bool-cases (is_unprocessed lib api coma)) [
        | inl h ↦ rw h refl
        | inr h ↦ rw h (keep _ _ ∙ add_reference-shower r (reference_to lib api coma namespace))
      ]

  pub reconcile_services-shower :
      (services : List ExternalServiceSpec) (r : Reconciler) (w : W)
      → (reconcile_services lib api services r w).reconciler.shower ≡ r.shower
  unfolding reconcile_services
  reconcile_services-shower [] r w = refl
  reconcile_services-shower (service ∷ services) r w = elim (Bool-cases (service.namespace == "")) [
    | inl h ↦ rw h (reconcile_services-shower services r w)
    | inr h ↦ rw h (
        visit-shower r service.namespace (λ r' w'. reconcile_services lib api services r' w')
          (fetch_coma lib api r service w) (reconcile_services-shower services))
  ]

  after_update-shower :
      (r : Reconciler) (m : Meteor) (answer : Result Meteor × W)
      → (after_update lib api r m answer).reconciler.shower ≡ r.shower
  after_update-shower r m (ok m', w) = refl
  after_update-shower r m (err e, w) = refl

  release-shower :
      (r : Reconciler) (answer : Option Error × W)
      → (release lib api r answer).reconciler.shower ≡ r.shower
  release-shower r (some e, w) = refl
  release-shower r (none, w) = after_update-shower r _ _

  pub ensure_finalizers-shower :
      (r : Reconciler) (w : W) → (ensure_finalizers lib api r w).reconciler.shower ≡ r.shower
  unfolding ensure_finalizers
  ensure_finalizers-shower r w = elim (Bool-cases (is_unset r.meteor.meta.deletion_timestamp)) [
    | inl d ↦ elim (Bool-cases (contains_string r.meteor.meta.finalizers finalizer)) [
      | inl f ↦ rw (d, f) refl
      | inr f ↦ rw (d, f) (after_update-shower r _ _)
    ]
    | inr d ↦ elim (Bool-cases (contains_string r.meteor.meta.finalizers finalizer)) [
      | inl f ↦ rw (d, f) (release-shower r (delete_comas lib api r w))
      | inr f ↦ rw (d, f) refl
    ]
  ]

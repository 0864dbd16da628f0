-- ===== src/Meteor/Comas/Laws.antt =====
-- What happens to a Meteor's Comas.
pub mod Shower
pub mod Confined
use meteor_operator.Prelude.{
  String, ◌≡◌, refl, inl, inr, Bool, true, false, ◌&&◌, ◌||◌, Option, none, some, List, [], ◌∷◌,
  ◌++◌, ◌==◌, arith, Bool-cases, text-cases, eq_iff, sym, ap,
}
use meteor_operator.Kube.Meta.{is_unset}
use meteor_operator.Kube.Client.{Error, Result, ok, err}
use meteor_operator.Kube.Library.{Library}
use meteor_operator.Api.Common.{NamespacedOwnerReference}
use meteor_operator.Api.Shower.{ExternalServiceSpec}
use meteor_operator.Api.Coma.{Coma}
use meteor_operator.Meteor.Slices.{contains_string, contains_coma}
use meteor_operator.Meteor.State.{Reconciler, Api, Step}
use meteor_operator.Meteor.Comas.{
  bare_coma, finalizer, add_reference, visit, fetch_coma, reconcile_services, delete_all,
  after_delete, delete_comas, ensure_finalizers, release, update_finalizers, is_unprocessed,
  reference_to,
}

abbrev pub same_coma : NamespacedOwnerReference → NamespacedOwnerReference → Bool
same_coma a b = a.namespace == b.namespace && a.name == b.name && a.uid == b.uid

==-sym : (s t : String) → (s == t) ≡ (t == s)
==-sym s t = elim (text-cases s t) [
  | inl e ↦ rw e refl
  | inr n ↦ ground (arith, eq_iff s t, eq_iff t s)
]

same_coma-sym : (a b : NamespacedOwnerReference) → same_coma a b ≡ same_coma b a
same_coma-sym a b =
    rw (==-sym a.namespace b.namespace, ==-sym a.name b.name, ==-sym a.uid b.uid) refl

contains_coma-append :
    (xs : List NamespacedOwnerReference) (x y : NamespacedOwnerReference)
    → contains_coma (xs ++ x ∷ []) y ≡ (contains_coma xs y || same_coma x y)
unfolding contains_coma
contains_coma-append [] x y = ground arith
contains_coma-append (z ∷ xs) x y = ground (arith, contains_coma-append xs x y)

-- No Coma is referred to twice.
abbrev AreDistinct : List NamespacedOwnerReference → Type 0
AreDistinct [] = Unit
AreDistinct (x ∷ xs) = (contains_coma xs x ≡ false) × AreDistinct xs

AreDistinct-append :
    (xs : List NamespacedOwnerReference) (x : NamespacedOwnerReference)
    → contains_coma xs x ≡ false
    → AreDistinct xs
    → AreDistinct (xs ++ x ∷ [])
unfolding contains_coma
AreDistinct-append [] x h u = (refl, tt)
AreDistinct-append (y ∷ xs) x h (fresh, u) = (
  rw (contains_coma-append xs x y) (ground (arith, same_coma-sym x y)),
  AreDistinct-append xs x (ground (arith, h)) u,
)

module _ {W : Type 0} (lib : Library) (api : Api W) where
  abbrev comas_of : Reconciler → List NamespacedOwnerReference
  comas_of r = r.meteor.status.comas

  add_reference-contains :
      (r : Reconciler) (x y : NamespacedOwnerReference)
      → contains_coma (comas_of r) y ≡ true
      → contains_coma (comas_of (add_reference lib api r x)) y ≡ true
  add_reference-contains r x y h = ground (arith, contains_coma-append (comas_of r) x y)

  add_reference-AreDistinct :
      (r : Reconciler) (x : NamespacedOwnerReference)
      → AreDistinct (comas_of r)
      → AreDistinct (comas_of (add_reference lib api r x))
  add_reference-AreDistinct r x u = elim (Bool-cases (contains_coma (comas_of r) x)) [
    | inl h ↦ rw h u
    | inr h ↦ rw h (AreDistinct-append (comas_of r) x h u)
  ]

  -- What holds of the references and survives an added one holds after the loop.
  module _ (P : Reconciler → Type 0)
      (step : (r : Reconciler) (x : NamespacedOwnerReference)
        → P r
        → P (add_reference lib api r x)) where
    visit-induct :
        (r : Reconciler) (namespace : String) (rest : Reconciler → W → Step W)
        → ((r' : Reconciler) (w' : W) → P r' → P (rest r' w').reconciler)
        → (fetched : Result Coma × W) → P r
        → P (visit lib api r namespace rest fetched).reconciler
    visit-induct r namespace rest keep (err e, w) p = p
    visit-induct r namespace rest keep (ok coma, w) p =
        elim (Bool-cases (is_unprocessed lib api coma)) [
          | inl h ↦ rw h p
          | inr h ↦ rw h (keep _ _ (step r (reference_to lib api coma namespace) p))
        ]

    services-induct :
        (services : List ExternalServiceSpec) (r : Reconciler) (w : W)
        → P r
        → P (reconcile_services lib api services r w).reconciler
    unfolding reconcile_services
    services-induct [] r w p = p
    services-induct (service ∷ services) r w p = elim (Bool-cases (service.namespace == "")) [
      | inl h ↦ rw h (services-induct services r w p)
      | inr h ↦ rw h (
          visit-induct r service.namespace (λ r' w'. reconcile_services lib api services r' w')
            (λ r' w'. services-induct services r' w') (fetch_coma lib api r service w) p)
    ]

  -- The references of distinct Comas stay distinct through the loop over the external services.
  reconcile_services-AreDistinct :
      (services : List ExternalServiceSpec) (r : Reconciler) (w : W)
      → AreDistinct r.meteor.status.comas
      → AreDistinct (reconcile_services lib api services r w).reconciler.meteor.status.comas
  reconcile_services-AreDistinct =
      services-induct (λ r. AreDistinct (comas_of r)) add_reference-AreDistinct

  -- No reference to a Coma is lost in the loop over the external services.
  pub reconcile_services-contains :
      (services : List ExternalServiceSpec) (r : Reconciler) (w : W)
      (ref : NamespacedOwnerReference)
      → contains_coma r.meteor.status.comas ref ≡ true
      → contains_coma (reconcile_services lib api services r w).reconciler.meteor.status.comas ref
        ≡ true
  reconcile_services-contains services r w ref =
      services-induct (λ s. contains_coma (comas_of s) ref ≡ true)
        (λ s x. add_reference-contains s x ref) services r w

-- The deletions of some Comas, in order, each of them accepted.
pub data Deleted {W : Type 0} (api : Api W) : List NamespacedOwnerReference → W → W → Type 0 where
  nothing : {w : W} → Deleted api [] w w
  one :
      {ref : NamespacedOwnerReference} {refs : List NamespacedOwnerReference} {w v u : W}
      → api.comas.delete (bare_coma ref.name ref.namespace) w ≡ (none, v)
      → Deleted api refs v u
      → Deleted api (ref ∷ refs) w u

module _ {W : Type 0} (lib : Library) (api : Api W) where
  after_delete-Deleted :
      (ref : NamespacedOwnerReference) (refs : List NamespacedOwnerReference) (w : W)
      → ((v u : W) → delete_all lib api refs v ≡ (none, u) → Deleted api refs v u)
      → (answer : Option Error × W) → api.comas.delete (bare_coma ref.name ref.namespace) w ≡ answer
      → (u : W) → after_delete lib api (λ v. delete_all lib api refs v) answer ≡ (none, u)
      → Deleted api (ref ∷ refs) w u
  after_delete-Deleted ref refs w rest (none, v) e u h = one e (rest v u h)
  after_delete-Deleted ref refs w rest (some x, v) e u h = cc

  delete_all-Deleted :
      (refs : List NamespacedOwnerReference) (w u : W)
      → delete_all lib api refs w ≡ (none, u)
      → Deleted api refs w u
  unfolding delete_all
  delete_all-Deleted [] w u h = rw (sym (ap (λ x. x.1) h)) nothing
  delete_all-Deleted (ref ∷ refs) w u h =
      after_delete-Deleted ref refs w (λ v x. delete_all-Deleted refs v x) _ refl u h

  -- What `EnsureFinalizers` did to let a Meteor with its finalizer go: the Comas of its status were
  -- all deleted, then the finalizers without this one were written.
  abbrev pub Released : Reconciler → W → Step W → Type 0
  Released r w step =
      (v : W) × Deleted api r.meteor.status.comas w v
      × (step
          ≡ update_finalizers lib api r (lib.remove_finalizer r.meteor.meta.finalizers finalizer) v)

  release-Released :
      (r : Reconciler) (w : W) (answer : Option Error × W)
      → delete_comas lib api r w ≡ answer
      → (release lib api r answer).error ≡ none
      → Released r w (release lib api r answer)
  unfolding delete_comas
  release-Released r w (none, v) e h = (v, delete_all-Deleted r.meteor.status.comas w v e, refl)
  release-Released r w (some x, v) e h = cc

  -- When `EnsureFinalizers` returns without an error for a Meteor that is being deleted and holds the
  -- finalizer, all its Comas were deleted before the finalizer was taken off.
  pub ensure_finalizers-Released :
      (r : Reconciler) (w : W)
      → is_unset r.meteor.meta.deletion_timestamp ≡ false
      → contains_string r.meteor.meta.finalizers finalizer ≡ true
      → (ensure_finalizers lib api r w).error ≡ none
      → Released r w (ensure_finalizers lib api r w)
  unfolding ensure_finalizers
  ensure_finalizers-Released r w d f =
      rw (d, f) (release-Released r w (delete_comas lib api r w) refl)

  -- A Meteor that stays and holds the finalizer.
  pub ensure_finalizers-idle :
      (r : Reconciler) (w : W)
      → is_unset r.meteor.meta.deletion_timestamp ≡ true
      → contains_string r.meteor.meta.finalizers finalizer ≡ true
      → ensure_finalizers lib api r w ≡ record { error = none; reconciler = r; world = w }
  unfolding ensure_finalizers
  ensure_finalizers-idle r w d f = rw (d, f) refl

-- ===== src/Meteor/Comas.antt =====
-- controllers/meteor/coma_reconciler.go, and `EnsureFinalizers` of meteor_controller.go. A call
-- of the client that fails leaves the object that it was to fill in as it was.
pub mod Laws
use meteor_operator.Prelude.{
  String, Bool, true, false, not, ◌||◌, Option, none, some, List, [], ◌∷◌, ◌++◌, ◌==◌, sprintf,
  if◌then◌else◌,
}
use meteor_operator.Kube.Meta.{TypeMeta, named, is_unset}
use meteor_operator.Kube.Client.{Error, Result, ok, err, Outcome, done, panic}
use meteor_operator.Kube.Library.{Library}
use meteor_operator.Api.Common.{group, NamespacedOwnerReference}
use meteor_operator.Api.Meteor.{Meteor, get_reference}
use meteor_operator.Api.Shower.{ExternalServiceSpec}
use meteor_operator.Api.Coma.{Coma}
use meteor_operator.Meteor.Slices.{contains_string, contains_coma}
use meteor_operator.Meteor.State.{Reconciler, Api, Step, with_meteor, with_status}

abbrev pub no_reference : NamespacedOwnerReference
no_reference = record {
  reference = record {
    api_version = "";
    kind = "";
    name = "";
    uid = "";
    controller = none;
    block_owner_deletion = none;
  };
  namespace = "";
}

-- A Coma of which only the name and the namespace are set.
abbrev pub bare_coma : String → String → Coma
bare_coma name namespace = record {
  type_meta = record { api_version = ""; kind = "" };
  meta = named name namespace;
  status = record { owner = no_reference };
}

-- `finalizer`
abbrev pub finalizer : String
finalizer = sprintf (group ∷ "/finalizer" ∷ [])

module _ {W : Type 0} (lib : Library) (api : Api W) where
  -- The Coma's reference is added to the status where it is missing.
  abbrev pub add_reference : Reconciler → NamespacedOwnerReference → Reconciler
  add_reference r ref =
      if not (contains_coma r.meteor.status.comas ref)
      then with_status r (record r.meteor.status { comas = r.meteor.status.comas ++ ref ∷ [] })
      else r

  -- The reference to a Coma, with the pointer `Controller` to false.
  abbrev pub reference_to : Coma → String → NamespacedOwnerReference
  reference_to coma namespace = record {
    reference = record (lib.new_controller_ref coma.type_meta coma.meta) {
      controller = some false;
    };
    namespace = namespace;
  }

  -- The Coma as it is handed to the status update.
  abbrev pub owned : Reconciler → Coma → Coma
  owned r coma = record coma { status = record { owner = get_reference r.meteor true } }

  -- Whether the API server has not processed the Coma yet.
  abbrev pub is_unprocessed : Coma → Bool
  is_unprocessed coma = coma.type_meta.api_version == "" || coma.meta.uid == ""

  -- `coma` after the branches on what `Get` returned; an error is of `Create`.
  abbrev pub after_get_coma : Reconciler → ExternalServiceSpec → Result Coma × W → Result Coma × W
  after_get_coma r service (ok coma, w) = (ok coma, w)
  after_get_coma r service (err e, w) =
      if e.not_found
      then api.comas.create (bare_coma r.meteor.meta.name service.namespace) w
      else (ok (bare_coma "" ""), w)

  abbrev pub fetch_coma : Reconciler → ExternalServiceSpec → W → Result Coma × W
  fetch_coma r service w =
      after_get_coma r service
        (api.comas.get (record { name = r.meteor.meta.name; namespace = service.namespace }) w)

  -- The rest of the loop's body, and `rest` for the services that follow. An error of the status
  -- update is only logged.
  abbrev pub visit : Reconciler → String → (Reconciler → W → Step W) → Result Coma × W → Step W
  visit r namespace rest (err e, w) = record { error = some e; reconciler = r; world = w }
  visit r namespace rest (ok coma, w) =
      if is_unprocessed coma
      then record { error = none; reconciler = r; world = w }
      else (let noted = add_reference r (reference_to coma namespace) in
          rest noted (api.comas.update_status (owned noted coma) w).1)

  -- The loop over the external services.
  unfoldable pub reconcile_services : List ExternalServiceSpec → Reconciler → W → Step W
  reconcile_services [] r w = record { error = none; reconciler = r; world = w }
  reconcile_services (service ∷ services) r w =
      let rest = λ (r' : Reconciler) (w' : W). reconcile_services services r' w' in
      if service.namespace == ""
      then rest r w
      else visit r service.namespace rest (fetch_coma r service w)

  -- `r.Shower` is dereferenced.
  unfoldable pub reconcile_comas : Reconciler → W → Outcome (Step W)
  reconcile_comas r w = elim r.shower [
    | none ↦ panic
    | some s ↦ done (reconcile_services s.spec.external_services r w)
  ]

  abbrev pub after_delete : (W → Option Error × W) → Option Error × W → Option Error × W
  after_delete rest (some e, w) = (some e, w)
  after_delete rest (none, w) = rest w

  -- The loop over the references: the first error, and the world.
  unfoldable pub delete_all : List NamespacedOwnerReference → W → Option Error × W
  delete_all [] w = (none, w)
  delete_all (ref ∷ refs) w =
      after_delete (λ v. delete_all refs v) (api.comas.delete (bare_coma ref.name ref.namespace) w)

  unfoldable pub delete_comas : Reconciler → W → Option Error × W
  delete_comas r w = delete_all r.meteor.status.comas w

  -- `Update`: an accepted one fills `r.Meteor`.
  abbrev pub after_update : Reconciler → Meteor → Result Meteor × W → Step W
  after_update r m (ok m', w) = record { error = none; reconciler = with_meteor r m'; world = w }
  after_update r m (err e, w) = record { error = some e; reconciler = with_meteor r m; world = w }

  abbrev pub update_finalizers : Reconciler → List String → W → Step W
  update_finalizers r fs w =
      let m = record r.meteor { meta = record r.meteor.meta { finalizers = fs } } in
      after_update r m (api.meteors.update m w)

  -- The finalizer goes only when all Comas have been deleted.
  abbrev pub release : Reconciler → Option Error × W → Step W
  release r (some e, w) = record { error = some e; reconciler = r; world = w }
  release r (none, w) =
      update_finalizers r (lib.remove_finalizer r.meteor.meta.finalizers finalizer) w

  unfoldable pub ensure_finalizers : Reconciler → W → Step W
  unfolding delete_comas
  ensure_finalizers r w =
      if is_unset r.meteor.meta.deletion_timestamp
      then (if not (contains_string r.meteor.meta.finalizers finalizer)
          then update_finalizers r (lib.add_finalizer r.meteor.meta.finalizers finalizer) w
          else record { error = none; reconciler = r; world = w })
      else (if contains_string r.meteor.meta.finalizers finalizer
          then release r (delete_comas r w)
          else record { error = none; reconciler = r; world = w })

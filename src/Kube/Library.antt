-- ===== src/Kube/Library.antt =====
-- The functions of apimachinery and controller-runtime that the controllers call.
use meteor_operator.Prelude.{String, List, ◌≡◌}
use meteor_operator.Kube.Meta.{key_of, TypeMeta, OwnerReference, ObjectMeta}
use meteor_operator.Kube.Conditions.{ConditionOps}
use meteor_operator.Kube.Client.{Error}

pub record Library : Type 0 where
  pub conditions : ConditionOps
  pub open conditions use *
  -- `controllerutil.SetControllerReference(owner, controlled, scheme)`: the metadata of the
  -- controlled object afterwards. The operator drops the error, which leaves them as they were.
  pub set_controller_reference : TypeMeta → ObjectMeta → ObjectMeta → ObjectMeta
  -- `metav1.NewControllerRef(owner, gvk)`
  pub new_controller_ref : TypeMeta → ObjectMeta → OwnerReference
  -- `controllerutil.AddFinalizer` and `RemoveFinalizer`, as the finalizers afterwards.
  pub add_finalizer : List String → String → List String
  pub remove_finalizer : List String → String → List String
  -- What `errors.NewNotFound` and `errors.NewConflict` build for the Showers.
  pub no_showers_found : Error
  pub shower_conflict : Error

-- The controller reference leaves the name and the namespace as they are.
abbrev pub KeepsKey : Library → Type 0
KeepsKey lib =
    (kind : TypeMeta) (owner controlled : ObjectMeta)
    → key_of (lib.set_controller_reference kind owner controlled) ≡ key_of controlled

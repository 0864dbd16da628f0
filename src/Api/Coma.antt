-- ===== src/Api/Coma.antt =====
-- api/v1alpha1/coma_types.go. `ComaSpec` has no field.
use meteor_operator.Kube.Meta.{TypeMeta, ObjectMeta}
use meteor_operator.Api.Common.{NamespacedOwnerReference}

pub record ComaStatus : Type 0 where
  pub owner : NamespacedOwnerReference

pub record Coma : Type 0 where
  pub type_meta : TypeMeta
  pub meta : ObjectMeta
  pub status : ComaStatus

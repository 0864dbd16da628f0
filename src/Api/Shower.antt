-- ===== src/Api/Shower.antt =====
-- api/v1alpha1/shower_types.go
use meteor_operator.Prelude.{
  ℕ, String, Bool, true, some, List, [], ◌∷◌, ◌==◌, StringMap, is_empty, if◌then◌else◌,
}
use meteor_operator.Prelude.Int.{ℤ}
use meteor_operator.Kube.Meta.{TypeMeta, ObjectMeta}
use meteor_operator.Kube.Conditions.{Condition, condition_false}
use meteor_operator.Tekton.{ClaimSpec}
use meteor_operator.Api.Common.{Phase, pending, succeeded, NamespacedOwnerReference}

pub record ExternalServiceSpec : Type 0 where
  pub name : String
  pub namespace : String
  pub url : String

pub record IngressSpec : Type 0 where
  pub annotations : StringMap
  pub labels : StringMap
  pub host : String
  pub path : String

-- An environment variable is a name and a value; of `PersistentVolumeClaimSpec` the fields that
-- the operator reads.
pub record ShowerSpec : Type 0 where
  pub replicas : ℤ  -- int32
  pub ingress : IngressSpec
  pub workspace : ClaimSpec
  pub image : String
  pub env : List (String × String)
  pub external_services : List ExternalServiceSpec
  pub persistent_meteors_host : String

pub record ShowerStatus : Type 0 where
  pub phase : String
  pub conditions : List Condition
  pub observed_generation : ℕ
  pub image : String
  pub url : String

pub record Shower : Type 0 where
  pub type_meta : TypeMeta
  pub meta : ObjectMeta
  pub spec : ShowerSpec
  pub status : ShowerStatus

-- The loop over the conditions.
scan : List Condition → Phase
scan [] = succeeded
scan (c ∷ cs) =
    let rest = scan cs in
    if c.type == "Deployment" then (if c.status == condition_false then pending else rest) else rest

unfoldable pub aggregate_phase : Shower → Phase
unfolding scan
aggregate_phase m = if is_empty m.status.conditions then pending else scan m.status.conditions

unfoldable pub get_reference : Shower → Bool → NamespacedOwnerReference
get_reference m is_controller = record {
  reference = record {
    api_version = m.type_meta.api_version;
    kind = m.type_meta.kind;
    name = m.meta.name;
    uid = m.meta.uid;
    controller = some is_controller;
    block_owner_deletion = some true;
  };
  namespace = m.meta.namespace;
}

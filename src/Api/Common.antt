-- ===== src/Api/Common.antt =====
-- api/v1alpha1/common.go and groupversion_info.go, and the structs of meteor_types.go that several
-- resources share.
use meteor_operator.Prelude.{String, List}
use meteor_operator.Kube.Meta.{OwnerReference}

-- `type Phase string` with its constants; `unset` is the empty string of a fresh status.
pub data Phase : Type 0 where
  unset pending failed running building succeeded unknown : Phase

pub phase_text : Phase → String
phase_text unset = ""
phase_text pending = "Pending"
phase_text failed = "Failed"
phase_text running = "Running"
phase_text building = "Building"
phase_text succeeded = "Succeeded"
phase_text unknown = "Unknown"

abbrev pub group : String
group = "meteor.zone"

abbrev pub group_version : String
group_version = "v1alpha1"

pub record PipelineResult : Type 0 where
  pub name : String
  pub pipeline_run_name : String
  pub url : String
  pub ready : String

pub record ComponentStatus : Type 0 where
  pub running : List String
  pub succeeded : List String
  pub failed : List String

-- The embedded `metav1.OwnerReference` is the field `reference`.
pub record NamespacedOwnerReference : Type 0 where
  pub reference : OwnerReference
  pub open reference use *
  pub namespace : String

-- ===== src/Api/Cre.antt =====
-- api/v1alpha1/customruntimeenvironment_types.go: the resource, its phase and its small checks.
pub mod Aggregate
pub mod Webhook
pub mod Samples
mod Tests
use meteor_operator.Prelude.{
  ℕ, String, Bool, true, false, not, ◌&&◌, ◌||◌, Option, List, [], ◌∷◌, ◌==◌, is_empty, any,
  if◌then◌else◌,
}
use meteor_operator.Kube.Meta.{TypeMeta, ObjectMeta}
use meteor_operator.Kube.Conditions.{Condition, condition_true, of_type}
use meteor_operator.Api.Common.{Phase, pending, failed, running, succeeded, PipelineResult}

-- `type BuildType string`; `other` is any text that is none of the three constants.
pub data BuildType : Type 0 where
  import_image package_list git_repository : BuildType
  other : String → BuildType

abbrev pub name_annotation : String
name_annotation = "opendatahub.io/notebook-image-name"

abbrev pub description_annotation : String
description_annotation = "opendatahub.io/notebook-image-desc"

abbrev pub creator_annotation : String
creator_annotation = "opendatahub.io/notebook-image-creator"

pub record ImagePullSecret : Type 0 where
  pub name : String

pub record BuildTypeSpec : Type 0 where
  pub build_type : BuildType
  pub from_image : String
  pub base_image : String
  pub repository : String
  pub git_ref : String
  pub image_pull_secret : ImagePullSecret

pub record RuntimeSpec : Type 0 where
  pub python_version : String
  pub os_name : String
  pub os_version : String

-- `PackageVersions` may be the nil slice, `none`. The embedded `BuildTypeSpec` is `build`.
pub record CreSpec : Type 0 where
  pub runtime_environment : RuntimeSpec
  pub package_versions : Option (List String)
  pub build : BuildTypeSpec
  pub open build use *

pub record CreStatus : Type 0 where
  pub observed_generation : ℕ
  pub phase : Phase
  pub conditions : List Condition
  pub pipelines : List PipelineResult

pub record CustomRuntimeEnvironment : Type 0 where
  pub type_meta : TypeMeta
  pub meta : ObjectMeta
  pub spec : CreSpec
  pub status : CreStatus

-- The condition types of customruntimeenvironment_condition_consts.go that the code uses.
abbrev pub pipeline_run_created : String
pipeline_run_created = "PipelineRunCreated"

abbrev pub error_pipeline_run_create : String
error_pipeline_run_create = "ErrorPipelineRunCreate"

abbrev pub image_import_ready : String
image_import_ready = "ImageImportReady"

abbrev pub image_import_invalid : String
image_import_invalid = "ImageImportInvalid"

abbrev pub package_list_build_completed : String
package_list_build_completed = "PackageListBuildCompleted"

abbrev pub error_building_image : String
error_building_image = "ErrorBuildingImage"

abbrev pub generic_pipeline_error : String
generic_pipeline_error = "GenericPipelineError"

abbrev pub pipeline_run_completed : String
pipeline_run_completed = "PipelineRunCompleted"

-- `c.Type == t && c.Status == metav1.ConditionTrue`
abbrev pub is_true : String → Condition → Bool
is_true t c = of_type t c && c.status == condition_true

-- The local variables of `AggregatePhase`.
pub record Seen : Type 0 where
  pub pipeline_run_created : Bool
  pub pipeline_run_successeded : Bool
  pub import_ready : Bool
  pub package_list_build_completed : Bool

abbrev pub nothing_seen : Seen
nothing_seen = record {
  pipeline_run_created = false;
  pipeline_run_successeded = false;
  import_ready = false;
  package_list_build_completed = false;
}

-- What one round of the loop sets before it may return.
observe : Condition → Seen → Seen
observe c s = record {
  pipeline_run_created = s.pipeline_run_created || is_true pipeline_run_created c;
  pipeline_run_successeded = s.pipeline_run_successeded || is_true pipeline_run_completed c;
  import_ready = s.import_ready || is_true image_import_ready c;
  package_list_build_completed =
      s.package_list_build_completed || is_true package_list_build_completed c;
}

-- The tests after the loop.
conclude : Seen → Phase
conclude s =
    if s.pipeline_run_created
    then running
    else if s.pipeline_run_successeded
    then (if s.import_ready || s.package_list_build_completed then succeeded else failed)
    else pending

-- The loop over the conditions, with its two early returns.
scan : List Condition → Seen → Phase
scan [] s = conclude s
scan (c ∷ cs) s =
    let rest = scan cs (observe c s) in
    if is_true error_pipeline_run_create c
    then failed
    else if is_true image_import_invalid c
    then failed
    else rest

pub aggregate_phase : CustomRuntimeEnvironment → Phase
unfolding scan observe conclude
aggregate_phase cre =
    if is_empty cre.status.conditions then pending else scan cre.status.conditions nothing_seen

-- `IsReady` looks at the status of any condition, whatever its type.
pub is_ready : CreStatus → Bool
is_ready status = any (λ c. c.status == condition_true) status.conditions

unfoldable pub is_valid : RuntimeSpec → Bool
is_valid r =
    if r.python_version == ""
    then false
    else if r.os_name == ""
    then false
    else if r.os_version == ""
    then false
    else true

-- A struct equals the zero struct when its one field does.
pub has_valid_image_pull_secret : BuildTypeSpec → Bool
has_valid_image_pull_secret b =
    if not (b.image_pull_secret.name == "")
    then (if b.image_pull_secret.name == "" then false else true)
    else true

-- ===== src/Tekton.antt =====
-- The parts of Tekton's `v1beta1.PipelineRun` that the operator reads and writes.
use meteor_operator.Prelude.{ℕ, String, Option, none, List, [], StringMap}
use meteor_operator.Kube.Meta.{Time, ObjectMeta}

pub data ParamType : Type 0 where
  param_string param_array : ParamType

pub record ArrayOrString : Type 0 where
  pub type : ParamType
  pub string_val : String
  pub array_val : List String

pub record Param : Type 0 where
  pub name : String
  pub value : ArrayOrString

-- A parameter of `ParamTypeString`, and one of `ParamTypeArray`.
abbrev pub string_param : String → String → Param
string_param name s = record {
  name = name;
  value = record { type = param_string; string_val = s; array_val = [] };
}

abbrev pub array_param : String → List String → Param
array_param name xs = record {
  name = name;
  value = record { type = param_array; string_val = ""; array_val = xs };
}

-- The quantities of two resource lists, by resource name; a quantity is kept as it is written.
pub record ResourceRequirements : Type 0 where
  pub limits : StringMap
  pub requests : StringMap

pub record ClaimSpec : Type 0 where
  pub access_modes : List String
  pub resources : ResourceRequirements

pub record ConfigMapSource : Type 0 where
  pub name : String
  pub items : List (String × String)  -- key and path
  pub default_mode : ℕ

pub record WorkspaceBinding : Type 0 where
  pub name : String
  pub volume_claim_template : Option ClaimSpec
  pub config_map : Option ConfigMapSource

pub record PipelineRunSpec : Type 0 where
  pub pipeline_ref : String
  pub params : List Param
  pub workspaces : List WorkspaceBinding

-- A condition in a run's status.
pub record RunCondition : Type 0 where
  pub type : String
  pub status : String
  pub reason : String
  pub message : String

pub record PipelineRunStatus : Type 0 where
  pub conditions : List RunCondition
  pub completion_time : Option Time
  pub pipeline_results : List ArrayOrString

pub record PipelineRun : Type 0 where
  pub meta : ObjectMeta
  pub spec : PipelineRunSpec
  pub status : PipelineRunStatus

abbrev pub no_spec : PipelineRunSpec
no_spec = record { pipeline_ref = ""; params = []; workspaces = [] }

abbrev pub no_status : PipelineRunStatus
no_status = record { conditions = []; completion_time = none; pipeline_results = [] }

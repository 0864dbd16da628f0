-- ===== src/Meteor/Build.antt =====
-- controllers/meteor/pipelinerun_reconciler.go, lines 26 to 47, 58 to 141 and 197 to 208: the
-- PipelineRun that a Meteor asks for. A failure of `json.Marshal` is an error of its own.
use meteor_operator.Prelude.{
  ℕ, String, Bool, false, not, ◌&&◌, none, some, List, [], ◌∷◌, ◌++◌, ◌==◌, is_empty, sprintf,
  if◌then◌else◌,
}
use meteor_operator.Prelude.Int.{pos, eqb_ℤ}
use meteor_operator.Kube.Meta.{named}
use meteor_operator.Kube.Client.{Error, Result, err}
use meteor_operator.Tekton.{
  ResourceRequirements, ClaimSpec, Param, string_param, WorkspaceBinding, PipelineRun, no_status,
}
use meteor_operator.Api.Common.{PipelineResult, NamespacedOwnerReference}
use meteor_operator.Api.Meteor.{Meteor, get_reference}
use meteor_operator.Api.Shower.{ShowerSpec, ExternalServiceSpec}
use meteor_operator.Cre.Build.{find_index, index_or_append}

-- `json.Marshal` on the two types that are written as parameters.
pub record Json : Type 0 where
  pub references : List NamespacedOwnerReference → Result String
  pub services : List ExternalServiceSpec → Result String

unfoldable pub resource_name : Meteor → String → String
resource_name m name = sprintf (m.meta.name ∷ "-" ∷ name ∷ [])

-- The closure `statusIndex`: the position of the result for a pipeline, which it appends where there
-- is none.
unfoldable pub status_index : Meteor → String → ℕ × List PipelineResult
unfolding find_index
status_index m name =
    index_or_append (find_index name m.status.pipelines)
      (record { name = name; pipeline_run_name = resource_name m name; url = ""; ready = "False" })
      m.status.pipelines

abbrev pub no_comas : Error
no_comas = record { not_found = false; message = "no Comas found" }

unfoldable pub owner_references : Json → Meteor → Result String
owner_references json m =
    if is_empty m.status.comas
    then err no_comas
    else json.references (m.status.comas ++ get_reference m false ∷ [])

-- Whether a struct of two maps is the zero value: `reflect.ValueOf(resources).IsZero()`.
abbrev pub is_zero_requirements : ResourceRequirements → Bool
is_zero_requirements r = elim r.limits [
  | some _ ↦ false
  | none ↦ elim r.requests [ some _ ↦ false | none ↦ Bool.true ]
]

-- The claim of the workspace "data", after the Shower's overrides.
abbrev pub data_claim : ShowerSpec → ClaimSpec
data_claim shower = record {
  access_modes =
      if not (is_empty shower.workspace.access_modes)
      then shower.workspace.access_modes
      else "ReadWriteOnce" ∷ [];
  resources =
      if not (is_zero_requirements shower.workspace.resources)
      then shower.workspace.resources
      else record { limits = none; requests = some (("storage", "500Mi") ∷ []) };
}

abbrev pub workspaces : ShowerSpec → List WorkspaceBinding
workspaces shower =
    record { name = "data"; volume_claim_template = some (data_claim shower); config_map = none }
    ∷ record {
      name = "sslcertdir";
      volume_claim_template = none;
      config_map = some (record {
        name = "openshift-service-ca.crt";
        items = ("service-ca.crt", "ca.crt") ∷ [];
        default_mode = 420;
      });
    }
    ∷ []

-- A Meteor that stays has a host of its own.
abbrev pub host_params : Meteor → ShowerSpec → List Param
host_params m shower =
    if eqb_ℤ m.spec.ttl (pos 0) && not (shower.persistent_meteors_host == "")
    then string_param "host" shower.persistent_meteors_host ∷ []
    else []

unfoldable pub params : Meteor → ShowerSpec → (references services : String) → List Param
params m shower references services =
    (string_param "url" m.spec.url
      ∷ string_param "ref" m.spec.ref
      ∷ string_param "ownerReferences" references
      ∷ [])
    ++ host_params m shower
    ++ string_param "externalServices" services ∷ []

-- The run without its controller reference.
unfoldable pub desired_run :
    Meteor → (name namespace : String) → ShowerSpec → (references services : String) → PipelineRun
unfolding params resource_name
desired_run m name namespace shower references services = record {
  meta = named (resource_name m name) namespace;
  spec = record {
    pipeline_ref = name;
    params = params m shower references services;
    workspaces = workspaces shower;
  };
  status = no_status;
}

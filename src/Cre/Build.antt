-- ===== src/Cre/Build.antt =====
-- controllers/cre/controller.go, lines 104 to 244, and controller_const.go: the PipelineRun that a
-- CustomRuntimeEnvironment asks for.
pub mod Index
pub mod Params
pub mod Naming
use meteor_operator.Prelude.{
  ℕ, suc, String, not, Option, none, some, List, [], ◌∷◌, ◌++◌, ◌==◌, is_empty, length, map_get,
  or_empty, format_int, sprintf, if◌then◌else◌,
}
use mathlib.Core.Option
use meteor_operator.Kube.Meta.{ObjectMeta, named}
use meteor_operator.Tekton.{
  Param, string_param, array_param, WorkspaceBinding, PipelineRun, no_status,
}
use meteor_operator.Api.Common.{PipelineResult}
use meteor_operator.Api.Cre.{
  BuildType, import_image, package_list, git_repository, other, CreSpec, CustomRuntimeEnvironment,
  name_annotation, description_annotation, creator_annotation,
}

-- The map `build_types`: a build type that it lacks gives the empty text.
abbrev pub pipeline_of : BuildType → String
pipeline_of git_repository = "gitrepo"
pipeline_of package_list = "package-list"
pipeline_of import_image = "import"
pipeline_of (other _) = ""

abbrev pub pipeline_label : String
pipeline_label = "cre.thoth-station.ninja/pipeline"

abbrev pub generation_label : String
generation_label = "cre.thoth-station.ninja/spouseGeneration"

unfoldable pub run_name : CustomRuntimeEnvironment → String
run_name cre = sprintf (
    "cre-"
    ∷ cre.meta.name
    ∷ "-"
    ∷ format_int cre.meta.generation
    ∷ "-"
    ∷ pipeline_of cre.spec.build_type
    ∷ [])

-- The object that `Get` is to fill in: a name, a namespace and two labels.
unfoldable pub run_meta : CustomRuntimeEnvironment → ObjectMeta
run_meta cre = record (named (run_name cre) cre.meta.namespace) {
  labels = some (
      (pipeline_label, pipeline_of cre.spec.build_type)
      ∷ (generation_label, format_int cre.meta.generation)
      ∷ []);
}

-- The position of the first result with a name.
unfoldable pub find_index : String → List PipelineResult → Option ℕ
find_index name [] = none
find_index name (pr ∷ prs) =
    if pr.name == name then some 0 else Option.map suc (find_index name prs)

abbrev pub index_or_append :
    Option ℕ → PipelineResult → List PipelineResult → ℕ × List PipelineResult
index_or_append (some i) result prs = (i, prs)
index_or_append none result prs = (length prs, prs ++ result ∷ [])

-- The closure `statusIndex`: the position of the result named after the resource, which it appends
-- where there is none.
unfoldable pub status_index : CustomRuntimeEnvironment → ℕ × List PipelineResult
unfolding find_index
status_index cre =
    index_or_append (find_index cre.meta.name cre.status.pipelines)
      (record { name = cre.meta.name; pipeline_run_name = run_name cre; url = ""; ready = "False" })
      cre.status.pipelines

-- `cre.ObjectMeta.Annotations[key]`
abbrev annotation : CustomRuntimeEnvironment → String → String
annotation cre key = or_empty (map_get cre.meta.annotations key)

abbrev items : Option (List String) → List String
items none = []
items (some xs) = xs

-- The parameters of a package list build.
unfoldable pub package_list_params : CreSpec → List Param
package_list_params spec =
    (if not (spec.base_image == "")
      then string_param "baseImage" spec.base_image ∷ []
      else string_param "osVersion" spec.runtime_environment.os_version
        ∷ string_param "osName" spec.runtime_environment.os_name
        ∷ string_param "pythonVersion" spec.runtime_environment.python_version
        ∷ [])
    ++ (if is_empty (items spec.package_versions)
        then []
        else array_param "packages" (items spec.package_versions) ∷ [])

-- The switch over the build type.
unfoldable pub build_params : BuildType → CreSpec → List Param
build_params import_image spec = string_param "baseImage" spec.from_image ∷ []
build_params package_list spec = package_list_params spec
build_params git_repository spec =
    string_param "url" spec.repository ∷ string_param "ref" spec.git_ref ∷ []
build_params (other _) spec = []

unfoldable pub params : CustomRuntimeEnvironment → List Param
unfolding build_params package_list_params
params cre =
    (string_param "name" (annotation cre name_annotation)
      ∷ string_param "creator" (annotation cre creator_annotation)
      ∷ string_param "description" (annotation cre description_annotation)
      ∷ [])
    ++ build_params cre.spec.build_type cre.spec

-- `workspaces_const`
abbrev pub workspaces_const : List WorkspaceBinding
workspaces_const =
    record {
      name = "data";
      volume_claim_template = some (record {
        access_modes = "ReadWriteOnce" ∷ [];
        resources = record { limits = none; requests = some (("storage", "500Mi") ∷ []) };
      });
      config_map = none;
    }
    ∷ record {
      name = "sslcertdir";
      volume_claim_template = none;
      config_map = some (record {
        name = "openshift-service-ca.crt";
        items = ("service-ca.crt", "ca.crt") ∷ [];
        default_mode = 420;
      });
    }
    ∷ []

-- The run that is submitted, before the controller reference is set.
unfoldable pub desired_run : CustomRuntimeEnvironment → PipelineRun
desired_run cre = record {
  meta = run_meta cre;
  spec = record {
    pipeline_ref = sprintf ("cre-" ∷ pipeline_of cre.spec.build_type ∷ []);
    params = params cre;
    workspaces = workspaces_const;
  };
  status = no_status;
}

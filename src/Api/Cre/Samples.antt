-- ===== src/Api/Cre/Samples.antt =====
-- Resources for the tests.
use meteor_operator.Prelude.{String, some, List, [], ◌∷◌}
use meteor_operator.Kube.Meta.{named}
use meteor_operator.Kube.Conditions.{Condition}
use meteor_operator.Api.Common.{unset}
use meteor_operator.Api.Cre.{
  BuildType, package_list, CustomRuntimeEnvironment, name_annotation, description_annotation,
  creator_annotation,
}

abbrev pub annotations : List (String × String)
annotations =
    (name_annotation, "webhook-1")
    ∷ (description_annotation, "default")
    ∷ (creator_annotation, "ginkgo")
    ∷ []

abbrev pub sample : BuildType → List Condition → CustomRuntimeEnvironment
sample build conditions = record {
  type_meta = record { api_version = "meteor.zone/v1alpha1"; kind = "CustomRuntimeEnvironment" };
  meta = record (named "test-1" "default") { generation = 1; annotations = some annotations };
  spec = record {
    runtime_environment = record { python_version = "3.8"; os_name = "ubi"; os_version = "8" };
    package_versions = some ("numpy" ∷ "pandas" ∷ []);
    build = record {
      build_type = build;
      from_image = "";
      base_image = "";
      repository = "";
      git_ref = "";
      image_pull_secret = record { name = "" };
    };
  };
  status = record {
    observed_generation = 0;
    phase = unset;
    conditions = conditions;
    pipelines = [];
  };
}

abbrev pub packages : CustomRuntimeEnvironment
packages = sample package_list []

abbrev pub condition_of : String → String → Condition
condition_of type status = record {
  type = type;
  status = status;
  observed_generation = 1;
  reason = "Test";
  message = "";
}

-- Without the description.
abbrev pub incomplete_annotations : List (String × String)
incomplete_annotations = (name_annotation, "webhook-3") ∷ []

abbrev pub incomplete : CustomRuntimeEnvironment
incomplete = record packages {
  meta = record packages.meta { annotations = some incomplete_annotations };
}

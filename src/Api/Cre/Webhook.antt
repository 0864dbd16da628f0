-- ===== src/Api/Cre/Webhook.antt =====
-- api/v1alpha1/customruntimeenvironment_webhook.go: admission of CustomRuntimeEnvironments.
pub mod Laws
use meteor_operator.Prelude.{
  String, Bool, true, false, not, ◌&&◌, Option, none, some, List, [], ◌∷◌, ◌++◌, ◌==◌, map_get,
  is_empty, if◌then◌else◌,
}
use meteor_operator.Api.Common.{group}
use meteor_operator.Api.Cre.{
  BuildType, package_list, CustomRuntimeEnvironment, name_annotation, description_annotation,
  creator_annotation, is_valid,
}

-- `field.Path`: `field.NewPath(name)` and `path.Key(key)`.
pub data FieldPath : Type 0 where
  new_path : String → FieldPath
  key : FieldPath → String → FieldPath

-- `*field.Error`, as `field.Required` and `field.Invalid` build it.
pub data FieldError : Type 0 where
  required : FieldPath → (detail : String) → FieldError
  invalid : FieldPath → (value detail : String) → FieldError

-- What `apierrors.NewInvalid` is given: the kind, the object's name and the errors.
pub record InvalidError : Type 0 where
  pub group : String
  pub kind : String
  pub name : String
  pub errors : List FieldError

unfoldable pub validate_annotation : CustomRuntimeEnvironment → String → Option FieldError
validate_annotation r annotation = elim r.meta.annotations [
  | none ↦ some (required (new_path "metadata.annotations") "annotation is required")
  | some m ↦ elim (map_get (some m) annotation) [
    | none ↦
        some (required (key (new_path "metadata.annotations") annotation) "annotation is required")
    | some v ↦ none
  ]
]

unfoldable pub validate_package_list : CustomRuntimeEnvironment → Option FieldError
validate_package_list r = elim r.spec.package_versions [
  | none ↦ some (required (new_path "spec.packageVersions") "packageVersions is required")
  | some versions ↦
      if is_empty versions
      then some (required (new_path "spec.packageVersions") "packageVersions is required")
      else if not (r.spec.base_image == "") && is_valid r.spec.runtime_environment
      then some (
          invalid (new_path "spec.baseImage") r.spec.base_image
            "baseImage and runtimeEnvironment are mutually exclusive")
      else if r.spec.base_image == "" && not (is_valid r.spec.runtime_environment)
      then some (required (new_path "spec.baseImage") "baseImage or runtimeEnvironment is required")
      else none
]

-- `if err := …; err != nil { allErrs = append(allErrs, err) }`
abbrev pub append_error : List FieldError → Option FieldError → List FieldError
append_error errs none = errs
append_error errs (some e) = errs ++ e ∷ []

abbrev pub is_package_list : BuildType → Bool
is_package_list package_list = true
is_package_list _ = false

-- The list `allErrs` that `ValidateCustomRuntimeEnvironment` collects.
unfoldable pub all_errors : CustomRuntimeEnvironment → List FieldError
unfolding validate_annotation validate_package_list
all_errors r =
    let named = append_error [] (validate_annotation r name_annotation) in
    let described = append_error named (validate_annotation r description_annotation) in
    let created = append_error described (validate_annotation r creator_annotation) in
    if is_package_list r.spec.build_type
    then append_error created (validate_package_list r)
    else created

-- `none` is the nil error.
unfoldable pub validate_custom_runtime_environment : CustomRuntimeEnvironment → Option InvalidError
unfolding all_errors
validate_custom_runtime_environment r =
    if is_empty (all_errors r)
    then none
    else some (record {
      group = group;
      kind = "CustomRuntimeEnvironment";
      name = r.meta.name;
      errors = all_errors r;
    })

unfoldable pub validate_create : CustomRuntimeEnvironment → Option InvalidError
validate_create r = validate_custom_runtime_environment r

-- The old object is not looked at.
unfoldable pub validate_update :
    CustomRuntimeEnvironment → CustomRuntimeEnvironment → Option InvalidError
validate_update r old = validate_custom_runtime_environment r

unfoldable pub validate_delete : CustomRuntimeEnvironment → Option InvalidError
validate_delete r = none

-- `Default` only logs.
unfoldable pub default : CustomRuntimeEnvironment → CustomRuntimeEnvironment
default r = r

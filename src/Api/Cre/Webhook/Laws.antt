-- ===== src/Api/Cre/Webhook/Laws.antt =====
-- Which CustomRuntimeEnvironments the webhook admits, and what it says of the others.
use mathlib.Core.List.{Memᴰ}
use mathlib.Core.Path.{subst}
use meteor_operator.Prelude.{
  String, ◌≡◌, ◌≢◌, refl, ◌↔◌, ◌⊎◌, inl, inr, Bool, true, false, Option, none, some, List, [], ◌∷◌,
  ◌++◌, StringMap, map_get, lookup, arith, eq_iff, if◌then◌else◌,
}
use meteor_operator.Api.Cre.{
  package_list, RuntimeSpec, CreSpec, CustomRuntimeEnvironment, name_annotation,
  description_annotation, creator_annotation, is_valid,
}
use meteor_operator.Api.Cre.Webhook.{
  FieldError, required, new_path, key, validate_annotation, validate_package_list, append_error,
  is_package_list, all_errors, validate_custom_runtime_environment, validate_create,
}

-- All three parts of the runtime are given.
abbrev pub IsComplete : RuntimeSpec → Type 0
IsComplete r = (r.python_version ≢ "") × (r.os_name ≢ "") × (r.os_version ≢ "")

pub is_valid_iff : (r : RuntimeSpec) → (is_valid r ≡ true) ↔ IsComplete r
unfolding is_valid
is_valid_iff r =
    ground (arith, eq_iff r.python_version "", eq_iff r.os_name "", eq_iff r.os_version "")

abbrev pub Has : String → StringMap → Type 0
Has k m = map_get m k ≢ none

-- Exactly one of a base image and a complete runtime environment is given.
abbrev pub HasOneBase : CreSpec → Type 0
HasOneBase s =
    ((s.base_image ≢ "") × ¬ IsComplete s.runtime_environment)
    ⊎ ((s.base_image ≡ "") × IsComplete s.runtime_environment)

-- The slice is not nil and not empty.
abbrev pub HasPackages : Option (List String) → Type 0
HasPackages none = ⊥
HasPackages (some []) = ⊥
HasPackages (some (x ∷ xs)) = Unit

-- What a CustomRuntimeEnvironment has to give.
pub record IsAdmissible (r : CustomRuntimeEnvironment) : Type 0 where
  pub named : Has name_annotation r.meta.annotations
  pub described : Has description_annotation r.meta.annotations
  pub created : Has creator_annotation r.meta.annotations
  pub packages : r.spec.build_type ≡ package_list → HasPackages r.spec.package_versions
  pub base : r.spec.build_type ≡ package_list → HasOneBase r.spec

validate_annotation_iff :
    (r : CustomRuntimeEnvironment) (k : String)
    → (validate_annotation r k ≡ none) ↔ Has k r.meta.annotations
unfolding validate_annotation
validate_annotation_iff r k = ground arith

validate_package_list_iff :
    (r : CustomRuntimeEnvironment)
    → (validate_package_list r ≡ none) ↔ (HasPackages r.spec.package_versions × HasOneBase r.spec)
unfolding validate_package_list
validate_package_list_iff r =
    ground (arith, eq_iff r.spec.base_image "", is_valid_iff r.spec.runtime_environment)

all_errors-eq-nil_iff :
    (r : CustomRuntimeEnvironment)
    → (all_errors r ≡ []) ↔ (
        (validate_annotation r name_annotation ≡ none)
        × (validate_annotation r description_annotation ≡ none)
        × (validate_annotation r creator_annotation ≡ none)
        × (r.spec.build_type ≡ package_list → validate_package_list r ≡ none))
all_errors-eq-nil_iff r = unfold all_errors in ground arith

validate-eq-none :
    (r : CustomRuntimeEnvironment)
    → (validate_custom_runtime_environment r ≡ none) ↔ (all_errors r ≡ [])
unfolding validate_custom_runtime_environment
validate-eq-none r = ground arith

-- The webhook admits exactly the resources that name, describe and attribute the image, and that
-- give a package list build its packages and exactly one base to build on.
pub validate_create-eq-none_iff :
    (r : CustomRuntimeEnvironment) → (validate_create r ≡ none) ↔ IsAdmissible r
unfolding validate_create
validate_create-eq-none_iff r = ground (
  arith,
  validate-eq-none r,
  all_errors-eq-nil_iff r,
  validate_annotation_iff r name_annotation,
  validate_annotation_iff r description_annotation,
  validate_annotation_iff r creator_annotation,
  validate_package_list_iff r,
)

-- The error for an annotation that is missing from a map that is there.
abbrev pub missing : String → FieldError
missing k = required (key (new_path "metadata.annotations") k) "annotation is required"

Memᴰ-last : (errs : List FieldError) (e : FieldError) → Memᴰ e (errs ++ e ∷ [])
Memᴰ-last [] e = Memᴰ.head refl
Memᴰ-last (d ∷ errs) e = Memᴰ.tail (Memᴰ-last errs e)

Memᴰ-before : (errs more : List FieldError) {e : FieldError} → Memᴰ e errs → Memᴰ e (errs ++ more)
Memᴰ-before [] more m = elim m [ ]
Memᴰ-before (d ∷ errs) more (Memᴰ.head p) = Memᴰ.head p
Memᴰ-before (d ∷ errs) more (Memᴰ.tail m) = Memᴰ.tail (Memᴰ-before errs more m)

append_error_new :
    (errs : List FieldError) (o : Option FieldError) {e : FieldError}
    → o ≡ some e
    → Memᴰ e (append_error errs o)
append_error_new errs o {e} h = rw h (Memᴰ-last errs e)

append_error_old :
    (errs : List FieldError) (o : Option FieldError) {e : FieldError}
    → Memᴰ e errs
    → Memᴰ e (append_error errs o)
append_error_old errs none m = m
append_error_old errs (some d) m = Memᴰ-before errs (d ∷ []) m

if_old :
    (b : Bool) (errs : List FieldError) (o : Option FieldError) {e : FieldError}
    → Memᴰ e errs
    → Memᴰ e (if b then append_error errs o else errs)
if_old true errs o m = append_error_old errs o m
if_old false errs o m = m

validate_annotation-missing :
    (r : CustomRuntimeEnvironment) (m : List (String × String)) (k : String)
    → r.meta.annotations ≡ some m
    → lookup k m ≡ none
    → validate_annotation r k ≡ some (missing k)
unfolding validate_annotation
validate_annotation-missing r m k e l = ground arith

-- Where a map of annotations is there, each of the three keys that it lacks is named in the list of
-- errors, whatever else is wrong.
pub all_errors-missing :
    (r : CustomRuntimeEnvironment) (m : List (String × String)) (k : String)
    → r.meta.annotations ≡ some m
    → lookup k m ≡ none
    → (k ≡ name_annotation) ⊎ (k ≡ description_annotation) ⊎ (k ≡ creator_annotation)
    → Memᴰ (missing k) (all_errors r)
unfolding all_errors
all_errors-missing r m k e l h =
    let found = validate_annotation-missing r m k e l in
    let at =
      λ (j : String) (p : k ≡ j). subst (λ i. validate_annotation r i ≡ some (missing k)) p found in
    let named = validate_annotation r name_annotation in
    let described = validate_annotation r description_annotation in
    let created = validate_annotation r creator_annotation in
    let one = append_error [] named in
    let two = append_error one described in
    let build =
      if_old (is_package_list r.spec.build_type) (append_error two created)
        (validate_package_list r) in
    elim h [
      | inl p ↦ build (
          append_error_old two created
            (append_error_old one described (append_error_new [] named (at name_annotation p))))
      | inr (inl p) ↦ build (
          append_error_old two created
            (append_error_new one described (at description_annotation p)))
      | inr (inr p) ↦ build (append_error_new two created (at creator_annotation p))
    ]

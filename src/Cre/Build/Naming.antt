-- ===== src/Cre/Build/Naming.antt =====
-- controllers/cre/controller.go, line 113: the name of the PipelineRun of a
-- CustomRuntimeEnvironment, and a reader of such names.
use meteor_operator.Prelude.{
  ℕ, String, Option, none, some, some-injective, ◌≡◌, refl, sym, ap, ◌∙◌, ◌==◌, format_int, sprintf,
  if◌then◌else◌,
}
use Prim.Native.String
use text.Mathlib.TextLemmas.{append_assoc, append-nil, append_cancel_left}
use meteor_operator.Prelude.Dashes.{dashless, cut_last, cut_last-append}
use meteor_operator.Prelude.Numerals.RoundTrip.{
  parse_int, parse_int-format_int, dashless-format_int,
}
use meteor_operator.Api.Cre.{
  BuildType, import_image, package_list, git_repository, other, CustomRuntimeEnvironment,
}
use meteor_operator.Cre.Build.{pipeline_of, run_name}

-- The pipeline is the last word, and `package-list` is the last two.
abbrev restore_list : Option (String × String) → Option (String × String)
restore_list none = none
restore_list (some (before, last)) = some (before, String.◌++◌ last "-list")

abbrev cut_pipeline : Option (String × String) → Option (String × String)
cut_pipeline none = none
cut_pipeline (some (before, last)) =
    if last == "list" then restore_list (cut_last before) else some (before, last)

abbrev read_generation : String → String → Option ℕ → Option (String × ℕ × String)
read_generation title pipeline none = none
read_generation title pipeline (some n) = some (title, n, pipeline)

abbrev cut_generation : String → Option (String × String) → Option (String × ℕ × String)
cut_generation pipeline none = none
cut_generation pipeline (some (title, digits)) = read_generation title pipeline (parse_int digits)

abbrev cut_title : Option (String × String) → Option (String × ℕ × String)
cut_title none = none
cut_title (some (before, pipeline)) = cut_generation pipeline (cut_last before)

-- "cre-" with the name, the generation and the pipeline that stand in the name of a PipelineRun.
unfoldable pub parse_run_name : String → Option (String × ℕ × String)
parse_run_name s = cut_title (cut_pipeline (cut_last s))

-- The name without its last word.
abbrev pub title_of : CustomRuntimeEnvironment → String
title_of cre = String.◌++◌ "cre-" cre.meta.name

abbrev pub stem_of : CustomRuntimeEnvironment → String
stem_of cre = String.◌++◌ (title_of cre) (String.◌++◌ "-" (format_int cre.meta.generation))

pub run_name-stem :
    (cre : CustomRuntimeEnvironment)
    → run_name cre ≡ String.◌++◌ (stem_of cre) (String.◌++◌ "-" (pipeline_of cre.spec.build_type))
unfolding run_name sprintf
run_name-stem cre =
    rw
      (
        append-nil (pipeline_of cre.spec.build_type),
        append_assoc (title_of cre) (String.◌++◌ "-" (format_int cre.meta.generation))
            (String.◌++◌ "-" (pipeline_of cre.spec.build_type)),
        append_assoc "-" (format_int cre.meta.generation)
            (String.◌++◌ "-" (pipeline_of cre.spec.build_type)),
        append_assoc "cre-" cre.meta.name (
            String.◌++◌ "-" (
              String.◌++◌ (format_int cre.meta.generation)
                (String.◌++◌ "-" (pipeline_of cre.spec.build_type)))),
      )
      refl

cut_pipeline-list :
    (stem : String)
    → cut_pipeline (cut_last (String.◌++◌ stem "-package-list")) ≡ some (stem, "package-list")
unfolding dashless
cut_pipeline-list stem =
    ap (λ s. cut_pipeline (cut_last s)) (sym (append_assoc stem "-package" "-list"))
    ∙ ap cut_pipeline (cut_last-append (String.◌++◌ stem "-package") "list" refl)
    ∙ ap restore_list (cut_last-append stem "package" refl)

cut_pipeline-append :
    (t : BuildType) (stem : String)
    → cut_pipeline (cut_last (String.◌++◌ stem (String.◌++◌ "-" (pipeline_of t))))
      ≡ some (stem, pipeline_of t)
unfolding dashless
cut_pipeline-append import_image stem = ap cut_pipeline (cut_last-append stem "import" refl)
cut_pipeline-append git_repository stem = ap cut_pipeline (cut_last-append stem "gitrepo" refl)
cut_pipeline-append (other _) stem = ap cut_pipeline (cut_last-append stem "" refl)
cut_pipeline-append package_list stem = cut_pipeline-list stem

cut_generation-stem :
    (cre : CustomRuntimeEnvironment) (p : String)
    → cut_generation p (cut_last (stem_of cre)) ≡ some (title_of cre, cre.meta.generation, p)
cut_generation-stem cre p =
    rw
      (
        cut_last-append (title_of cre) (format_int cre.meta.generation)
            (dashless-format_int cre.meta.generation),
        parse_int-format_int cre.meta.generation,
      )
      refl

-- Each part of a PipelineRun's name is read back from it.
pub parse_run_name-run_name :
    (cre : CustomRuntimeEnvironment)
    → parse_run_name (run_name cre)
      ≡ some
          (String.◌++◌ "cre-" cre.meta.name, cre.meta.generation, pipeline_of cre.spec.build_type)
unfolding parse_run_name
parse_run_name-run_name cre =
    rw (run_name-stem cre, cut_pipeline-append cre.spec.build_type (stem_of cre))
      (cut_generation-stem cre (pipeline_of cre.spec.build_type))

-- What two resources share when their PipelineRuns carry one name.
abbrev pub Agree : CustomRuntimeEnvironment → CustomRuntimeEnvironment → Type 0
Agree a b =
    (a.meta.name ≡ b.meta.name)
    × (a.meta.generation ≡ b.meta.generation)
    × (pipeline_of a.spec.build_type ≡ pipeline_of b.spec.build_type)

-- Two resources whose PipelineRuns carry the same name have the same name, the same generation and
-- the same pipeline.
pub run_name-injective : (a b : CustomRuntimeEnvironment) → run_name a ≡ run_name b → Agree a b
run_name-injective a b e =
    let parts =
      some-injective
        (sym (parse_run_name-run_name a) ∙ ap parse_run_name e ∙ parse_run_name-run_name b) in
    (
      append_cancel_left "cre-" a.meta.name b.meta.name (ap (λ p. p.0) parts),
      ap (λ p. p.1) parts,
      ap (λ p. p.2) parts,
    )

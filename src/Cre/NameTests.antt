-- ===== src/Cre/NameTests.antt =====
-- Tests of the names of PipelineRuns: the theorems about them at sample resources.
use meteor_operator.Prelude.{◌≡◌, refl, none, [], format_int, sprintf}
use meteor_operator.Prelude.Dashes.{cut_last}
use meteor_operator.Prelude.Numerals.RoundTrip.{parse_int}
use meteor_operator.Kube.Meta.{named}
use meteor_operator.Api.Common.{running}
use meteor_operator.Api.Cre.{import_image, CustomRuntimeEnvironment}
use meteor_operator.Api.Cre.Samples.{packages, sample}
use meteor_operator.Cre.Build.{run_name}
use meteor_operator.Cre.Build.Naming.{Agree, parse_run_name, run_name-injective}

abbrev later : CustomRuntimeEnvironment
later = record (sample import_image []) {
  meta = record (named "elyra-3" "default") { generation = 12 };
}

run_name_test : run_name packages ≡ "cre-test-1-1-package-list"
unfolding run_name format_int sprintf
run_name_test = refl

unread_test : parse_run_name "cre-test-x-import" ≡ none
unfolding parse_run_name cut_last parse_int
unread_test = refl

abbrev updated : CustomRuntimeEnvironment
updated = record packages { status = record packages.status { phase = running } }

same_name : run_name packages ≡ run_name updated
unfolding run_name
same_name = refl

run_name-injective_example : Agree packages updated
run_name-injective_example = run_name-injective packages updated same_name

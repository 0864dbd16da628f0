-- ===== src/Api/Cre/Tests.antt =====
-- Runs of AggregatePhase, IsReady and the webhook, and the theorems about them at these inputs.
use mathlib.Core.Quot
use mathlib.Core.List.Perm
use meteor_operator.Prelude.{◌≡◌, refl, ◌↔◌, true, false, none, List, [], ◌∷◌}
use meteor_operator.Kube.Conditions.{Condition}
use meteor_operator.Api.Common.{pending, failed, running, succeeded}
use meteor_operator.Api.Cre.{
  import_image, git_repository, pipeline_run_created, error_pipeline_run_create, image_import_ready,
  pipeline_run_completed, aggregate_phase, is_ready, is_valid, has_valid_image_pull_secret,
}
use meteor_operator.Api.Cre.Aggregate.{phase_of, aggregate_phase_lem}
use meteor_operator.Api.Cre.Aggregate.Bag.{aggregate_phase-eq_bag}
use meteor_operator.Api.Cre.Webhook.{validate_custom_runtime_environment, validate_create}
use meteor_operator.Api.Cre.Webhook.Laws.{IsAdmissible, validate_create-eq-none_iff}
use meteor_operator.Api.Cre.Samples.{packages, sample, condition_of}

abbrev imported : List Condition
imported = condition_of pipeline_run_completed "True" ∷ condition_of image_import_ready "True" ∷ []

abbrev imported_reversed : List Condition
imported_reversed =
    condition_of image_import_ready "True" ∷ condition_of pipeline_run_completed "True" ∷ []

phases :
    (aggregate_phase (sample import_image []) ≡ pending)
    × (aggregate_phase (sample import_image imported) ≡ succeeded)
    × (aggregate_phase (sample import_image (condition_of pipeline_run_created "True" ∷ imported))
        ≡ running)
    × (aggregate_phase
          (sample import_image (condition_of error_pipeline_run_create "True" ∷ imported))
        ≡ failed)
    × (aggregate_phase (sample git_repository (condition_of pipeline_run_completed "True" ∷ []))
        ≡ failed)
unfolding aggregate_phase
phases = (refl, refl, refl, refl, refl)

ready :
    (is_ready (sample import_image imported).status ≡ true)
    × (is_ready (sample import_image (condition_of "PipelineRunPrepare" "Unknown" ∷ [])).status
        ≡ false)
unfolding is_ready
ready = (refl, refl)

secrets : has_valid_image_pull_secret packages.spec.build ≡ true
unfolding has_valid_image_pull_secret
secrets = refl

aggregate_phase_lem_example : aggregate_phase (sample import_image imported) ≡ phase_of imported
aggregate_phase_lem_example = aggregate_phase_lem (sample import_image imported)

aggregate_phase-eq_bag_example :
    aggregate_phase (sample import_image imported)
    ≡ aggregate_phase (sample import_image imported_reversed)
aggregate_phase-eq_bag_example =
    aggregate_phase-eq_bag (sample import_image imported) (sample import_image imported_reversed)
      (Quot.sound (Perm.swap _ _ _))

validate_create-eq-none_iff_example : (validate_create packages ≡ none) ↔ IsAdmissible packages
validate_create-eq-none_iff_example = validate_create-eq-none_iff packages

admits : validate_create packages ≡ none
unfolding validate_create validate_custom_runtime_environment is_valid
admits = refl

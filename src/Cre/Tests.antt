-- ===== src/Cre/Tests.antt =====
-- Reconciliations of sample resources against the stand-in cluster.
use meteor_operator.Prelude.{String, ◌≡◌, refl, ◌↔◌, true, none, some, [], ◌∷◌}
use meteor_operator.Kube.Client.{Result, done, panic, Ends}
use meteor_operator.Kube.Doubles.{keyed_ops-AreConditionOps, plain_library, missing_object, refusal}
use meteor_operator.Api.Common.{failed}
use meteor_operator.Api.Cre.{
  package_list, git_repository, CustomRuntimeEnvironment, pipeline_run_created,
  error_pipeline_run_create,
}
use meteor_operator.Api.Cre.Aggregate.{holds}
use meteor_operator.Api.Cre.Samples.{packages, sample, condition_of}
use meteor_operator.Cre.Samples.{eq, accepting_api, refusing_api, ended, strange}
use meteor_operator.Cre.Reconcile.{reconcile_pipeline_run, refresh}
use meteor_operator.Cre.Reconcile.Phase.{IsFresh, refresh-IsFresh}
use meteor_operator.Cre.Reconcile.Life.{born, creation_error_is_final}
use meteor_operator.Cre.Reconcile.Branches.{Reports, refresh-create_refused}
use meteor_operator.Cre.Reconcile.Outcomes.{HasEnded, EndsIn, refresh-without_image}
use meteor_operator.Cre.Reconcile.Results.{Strange, reconcile_pipeline_run-eq-panic_iff}

refresh-IsFresh_example :
    Ends
      (IsFresh plain_library (accepting_api packages) eq packages)
      (refresh plain_library (accepting_api packages) eq packages none)
refresh-IsFresh_example = refresh-IsFresh plain_library (accepting_api packages) eq packages none

refresh-create_refused_example :
    (c : CustomRuntimeEnvironment) × (refresh plain_library (refusing_api packages) eq packages none
      ≡ done (c, none))
    × Reports c failed
    × (holds error_pipeline_run_create c.status.conditions ≡ true)
    × (holds pipeline_run_created c.status.conditions ≡ true)
refresh-create_refused_example =
    refresh-create_refused plain_library (refusing_api packages) keyed_ops-AreConditionOps eq
      packages none none none missing_object refusal tt refl refl refl

abbrev marked : CustomRuntimeEnvironment
marked = sample package_list (condition_of error_pipeline_run_create "True" ∷ [])

creation_error_is_final_example :
    Ends
      (λ x. x.0.status.phase ≡ failed)
      (refresh plain_library (accepting_api marked) eq marked (some (ended "package-list" "True")))
creation_error_is_final_example =
    creation_error_is_final plain_library (accepting_api marked) eq
      (some (ended "package-list" "True")) keyed_ops-AreConditionOps (tt, tt) refl born

ended-HasEnded : (label status : String) → HasEnded (ended label status) status
ended-HasEnded label status = record {
  first = record { type = "Succeeded"; status = status; reason = "Done"; message = "" };
  more = [];
  listed = refl;
  about_success = refl;
  result = refl;
}

abbrev git : CustomRuntimeEnvironment
git = sample git_repository []

refresh-without_image_example :
    EndsIn plain_library
      (accepting_api git)
      eq
      keyed_ops-AreConditionOps
      git
      (some (ended "gitrepo" "True"))
      (some (ended "gitrepo" "True"))
      (ended "gitrepo" "True")
      tt
      refl
      failed
refresh-without_image_example =
    refresh-without_image plain_library (accepting_api git) eq keyed_ops-AreConditionOps git
      (some (ended "gitrepo" "True")) (some (ended "gitrepo" "True")) (ended "gitrepo" "True") tt
      refl (ended-HasEnded "gitrepo" "True") (refl, refl) refl refl

reconcile_pipeline_run-eq-panic_iff_example :
    (reconcile_pipeline_run plain_library (accepting_api packages) packages (some strange) ≡ panic)
    ↔ Strange plain_library (accepting_api packages) packages (Result.ok strange)
reconcile_pipeline_run-eq-panic_iff_example =
    reconcile_pipeline_run-eq-panic_iff plain_library (accepting_api packages) packages
      (some strange)

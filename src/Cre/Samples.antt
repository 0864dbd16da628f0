-- ===== src/Cre/Samples.antt =====
-- A stand-in cluster and PipelineRuns, for the tests of controllers/cre.
use meteor_operator.Prelude.{String, refl, Bool, false, Option, some, [], ◌∷◌, eqb}
use meteor_operator.Prelude.Int
use meteor_operator.Kube.Meta.{named}
use meteor_operator.Kube.Doubles.{single, refusing, constant}
use meteor_operator.Tekton.{PipelineRun, no_spec, no_status}
use meteor_operator.Api.Cre.{CustomRuntimeEnvironment}
use meteor_operator.Cre.Build.{pipeline_label}
use meteor_operator.Cre.Reconcile.{StatusValue, struct, pointer, DeepEqual, Api}

-- Compares two structs, or two pointers, by their generations.
abbrev by_generation : StatusValue → StatusValue → Bool
by_generation (struct s) (struct t) = eqb s.observed_generation t.observed_generation
by_generation (pointer s) (pointer t) = eqb s.observed_generation t.observed_generation
by_generation (struct s) (pointer t) = false
by_generation (pointer s) (struct t) = false

abbrev pub eq : DeepEqual
eq = record { deep_equal = by_generation; distinct_types = λ s t. refl }

abbrev pub World : Type 0
World = Option PipelineRun

-- The resource is served as it is; runs are created, or refused.
abbrev pub accepting_api : CustomRuntimeEnvironment → Api World
accepting_api cre = record {
  cres = constant CustomRuntimeEnvironment cre;
  pipeline_runs = single PipelineRun;
}

abbrev pub refusing_api : CustomRuntimeEnvironment → Api World
refusing_api cre = record {
  cres = constant CustomRuntimeEnvironment cre;
  pipeline_runs = refusing PipelineRun;
}

abbrev pub ended : String → String → PipelineRun
ended label status = record {
  meta = record (named "cre-test-1" "default") { labels = some ((pipeline_label, label) ∷ []) };
  spec = no_spec;
  status = record no_status {
    conditions = record { type = "Succeeded"; status = status; reason = "Done"; message = "" } ∷ [];
  };
}

abbrev pub strange : PipelineRun
strange = record (ended "import" "True") {
  status = record no_status { completion_time = some (Int.pos 5) };
}

-- ===== src/Meteor/NameTests.antt =====
-- Tests of the names of a Meteor's PipelineRuns.
use meteor_operator.Prelude.{String, ◌≡◌, refl, true, some, [], ◌∷◌, sprintf}
use meteor_operator.Prelude.Dashes.{dashless}
use meteor_operator.Kube.Doubles.{plain_library}
use meteor_operator.Tekton.{PipelineRun, no_spec}
use meteor_operator.Api.Meteor.{Meteor}
use meteor_operator.Meteor.Samples.{reconciler, api, json, run_status, two, plain, shower}
use meteor_operator.Meteor.Build.{resource_name}
use meteor_operator.Meteor.Run.Laws.Names.{
  Reads, resource_name-injective, reconcile_pipeline_run-foreign,
}
use meteor_operator.Kube.Meta.{named}

-- Named after `plain`, a dash and "jupyter".
abbrev jupyter : Meteor
jupyter = record plain {
  meta = record plain.meta { name = "demo-jupyter" };
  spec = record plain.spec { pipelines = "hub" ∷ [] };
}

resource_name_test : resource_name jupyter "hub" ≡ "demo-jupyter-hub"
unfolding resource_name sprintf
resource_name_test = refl

abbrev hub : String
hub = "jupyterhub"

dashless_test : dashless hub ≡ true
unfolding dashless
dashless_test = refl

resource_name-injective_example : (plain.meta.name ≡ plain.meta.name) × (hub ≡ hub)
resource_name-injective_example =
    resource_name-injective plain plain hub hub dashless_test dashless_test refl

abbrev foreign : PipelineRun
foreign = record {
  meta = named "demo-jupyter-hub" "default";
  spec = no_spec;
  status = run_status "Succeeded";
}

reconcile_pipeline_run-foreign_example :
    Reads plain_library json
      (api jupyter two)
      (reconciler jupyter (some (shower "one")))
      "hub"
      "default"
      (run_status "Succeeded")
      (some foreign)
      (some foreign)
      (resource_name plain "jupyter-hub")
reconcile_pipeline_run-foreign_example =
    reconcile_pipeline_run-foreign plain_library json (api jupyter two)
      (reconciler jupyter (some (shower "one"))) plain "jupyter" "hub" "default" foreign
      (some foreign) (some foreign) refl refl

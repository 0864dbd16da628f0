-- ===== src/Meteor/Samples.antt =====
-- A Meteor, Showers and the cluster that serves them, for the tests of controllers/meteor.
use meteor_operator.Prelude.{
  String, ◌≡◌, refl, true, false, Option, none, some, List, [], ◌∷◌, sprintf,
}
use meteor_operator.Prelude.Int.{ℤ, pos}
use meteor_operator.Kube.Meta.{named}
use meteor_operator.Kube.Conditions.{Condition}
use meteor_operator.Kube.Client.{ok}
use meteor_operator.Kube.Doubles.{plain_library, constant, single}
use meteor_operator.Tekton.{PipelineRun, PipelineRunStatus, no_status}
use meteor_operator.Api.Meteor.{Meteor, get_reference}
use meteor_operator.Api.Shower.{Shower, ExternalServiceSpec}
use meteor_operator.Api.Coma.{Coma}
use meteor_operator.Meteor.Slices.{contains_string, contains_coma}
use meteor_operator.Meteor.State.{Reconciler, Api}
use meteor_operator.Meteor.Comas.{finalizer, delete_all, ensure_finalizers}
use meteor_operator.Meteor.Build.{Json}
use meteor_operator.Meteor.Run.Laws.Tidy.{IsTidy}

abbrev pub meteor : ℤ → List Condition → Meteor
meteor ttl conditions = record {
  type_meta = record { api_version = "meteor.zone/v1alpha1"; kind = "Meteor" };
  meta = record (named "demo" "default") {
    creation_timestamp = pos 1000;
    finalizers = finalizer ∷ [];
  };
  spec = record {
    url = "https://github.com/AICoE/meteor-demo";
    ref = "main";
    ttl = ttl;
    pipelines = "jupyterbook" ∷ "jupyterhub" ∷ [];
  };
  status = record {
    phase = "";
    conditions = conditions;
    pipelines = [];
    expiration_timestamp = pos 0;
    observed_generation = 0;
    comas = [];
    stage = record { running = "demo-jupyterbook" ∷ []; succeeded = []; failed = [] };
  };
}

abbrev pub service : ExternalServiceSpec
service = record { name = "hub"; namespace = "opf-jupyterhub"; url = "https://hub.example" }

abbrev pub shower : String → Shower
shower name = record {
  type_meta = record { api_version = "meteor.zone/v1alpha1"; kind = "Shower" };
  meta = named name "default";
  spec = record {
    replicas = pos 1;
    ingress = record { annotations = none; labels = none; host = ""; path = "" };
    workspace = record { access_modes = []; resources = record { limits = none; requests = none } };
    image = "";
    env = [];
    external_services = service ∷ [];
    persistent_meteors_host = "meteor.example";
  };
  status = record { phase = ""; conditions = []; observed_generation = 0; image = ""; url = "" };
}

abbrev pub labelled : Meteor
labelled = record (meteor (pos 0) []) {
  meta = record (meteor (pos 0) []).meta { labels = some (("shower.meteor.zone", "one") ∷ []) };
}

abbrev pub leaving : Meteor
leaving = record (meteor (pos 0) []) {
  meta = record (meteor (pos 0) []).meta { deletion_timestamp = some (pos 2000) };
  status = record (meteor (pos 0) []).status {
    comas = get_reference (meteor (pos 0) []) false ∷ [];
  };
}

abbrev pub coma : Coma
coma = record {
  type_meta = record { api_version = "meteor.zone/v1alpha1"; kind = "Coma" };
  meta = record (named "demo" "opf-jupyterhub") { uid = "7f" };
  status = record { owner = get_reference (meteor (pos 0) []) true };
}

abbrev pub reconciler : Meteor → Option Shower → Reconciler
reconciler m s = record { meteor = m; shower = s; samples = [] }

abbrev pub World : Type 0
World = Option PipelineRun

-- One Meteor, some Showers, one Coma, and at most one run.
abbrev pub api : Meteor → List Shower → Api World
api m showers = record {
  meteors = record (constant Meteor m) { update_status = λ _ w. (ok m, w) };
  showers = record (constant Shower (shower "one")) { list = λ w. (ok showers, w) };
  comas = constant Coma coma;
  pipeline_runs = single PipelineRun;
}

abbrev pub json : Json
json = record { references = λ _. ok "[{}]"; services = λ _. ok "[]" }

abbrev pub run_status : String → PipelineRunStatus
run_status reason = record no_status {
  conditions = record { type = "Succeeded"; status = "True"; reason = reason; message = "" } ∷ [];
  completion_time = some (pos 3000);
}

abbrev pub two : List Shower
two = shower "one" ∷ shower "two" ∷ []

abbrev pub plain : Meteor
plain = meteor (pos 0) []

abbrev pub brief : Meteor
brief = meteor (pos 60) []

abbrev pub alone : Api World
alone = api brief (shower "one" ∷ [])

abbrev pub settling : Condition
settling = record {
  type = "PipelineRunJupyterbook";
  status = "Unknown";
  observed_generation = 1;
  reason = "Running";
  message = "";
}

pub tidy : IsTidy (meteor (pos 0) []).status.stage
unfolding contains_string
tidy = ((refl, tt), tt, tt)

pub held : contains_string (finalizer ∷ []) finalizer ≡ true
unfolding contains_string sprintf
held = refl

pub known : contains_coma leaving.status.comas (get_reference (meteor (pos 0) []) false) ≡ true
unfolding contains_coma get_reference
known = refl

pub released :
    (ensure_finalizers plain_library (api leaving two) (reconciler leaving none) none).error ≡ none
unfolding ensure_finalizers delete_all contains_string sprintf
released = refl

-- ===== src/Startup/Setup.antt =====
-- The `SetupWithManager` methods of controllers/meteor/meteor_controller.go,
-- controllers/shower/shower_controller.go and controllers/cre/controller.go, with
-- `SetupWebhookWithManager` of api/v1alpha1/customruntimeenvironment_webhook.go.
use meteor_operator.Prelude.{ℕ, String, Bool, Option, List, [], ◌∷◌}
use meteor_operator.Kube.Client.{Error, Result}
use meteor_operator.Startup.Config.{MeteorConfig}
use meteor_operator.Startup.Scheme.{Group, client_go, meteor, pipeline, route}

-- The kinds that the controllers watch.
pub data Kind : Type 0 where
  meteors : Kind
  showers : Kind
  custom_runtime_environments : Kind
  pipeline_runs : Kind
  deployments : Kind
  services : Kind
  routes : Kind
  service_accounts : Kind
  roles : Kind
  role_bindings : Kind

-- The package that a kind comes from.
abbrev pub group_of : Kind → Group
group_of meteors = meteor
group_of showers = meteor
group_of custom_runtime_environments = meteor
group_of pipeline_runs = pipeline
group_of routes = route
group_of deployments = client_go
group_of services = client_go
group_of service_accounts = client_go
group_of roles = client_go
group_of role_bindings = client_go

-- `ctrl.Options`, as far as `main` sets it.
pub record Options (S : Type 0) : Type 0 where
  pub scheme : S
  pub metrics_bind_address : String
  pub port : ℕ
  pub health_probe_bind_address : String
  pub leader_election : Bool
  pub leader_election_id : String
  pub leader_election_namespace : String

-- What a manager is going to run.
pub record View (S : Type 0) : Type 0 where
  pub scheme : S
  pub watched : List Kind
  pub webhooks : List Kind
  pub health_checks : List String
  pub ready_checks : List String

abbrev pub fresh_view : {S : Type 0} → S → View S
fresh_view s = record {
  scheme = s;
  watched = [];
  webhooks = [];
  health_checks = [];
  ready_checks = [];
}

-- controller-runtime, with the cluster and the file system that it finds. `complete_controller` is
-- the builder's `Complete` for the kinds of `For` and of `Owns`; `merge` is how `AndFrom` takes the
-- settings of a configuration up.
pub record Runtime (S C M : Type 0) : Type 0 where
  pub and_from :
      (MeteorConfig C → C × Option Error)
      → (path : String) → Options S
      → MeteorConfig C
      → Options S × Option Error × MeteorConfig C
  pub merge : Options S → C → Options S
  pub has_kubeconfig : Bool
  pub new_manager : Options S → Result M
  pub complete_controller : (for : Kind) → (owns : List Kind) → M → Option Error × M
  pub complete_webhook : (for : Kind) → M → Option Error × M
  pub add_healthz_check : String → M → Option Error × M
  pub add_readyz_check : String → M → Option Error × M
  pub start : M → Option Error
  pub view : M → View S

module _ {S C M : Type 0} (K : Runtime S C M) where
  -- `MeteorReconciler.SetupWithManager`
  unfoldable pub setup_meteor : M → Option Error × M
  setup_meteor = K.complete_controller meteors (pipeline_runs ∷ [])

  -- `ShowerReconciler.SetupWithManager`
  unfoldable pub setup_shower : M → Option Error × M
  setup_shower =
      K.complete_controller showers
        (deployments ∷ services ∷ routes ∷ service_accounts ∷ roles ∷ role_bindings ∷ meteors ∷ [])

  -- `CustomRuntimeEnvironmentReconciler.SetupWithManager`
  unfoldable pub setup_cre : M → Option Error × M
  setup_cre = K.complete_controller custom_runtime_environments (pipeline_runs ∷ meteors ∷ [])

  -- `SetupWebhookWithManager`
  unfoldable pub setup_webhook : M → Option Error × M
  setup_webhook = K.complete_webhook custom_runtime_environments

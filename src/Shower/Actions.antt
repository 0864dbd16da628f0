-- ===== src/Shower/Actions.antt =====
-- The reconcilers of controllers/shower, one for each object.
pub mod Laws
pub mod Confined
pub mod Settle
use meteor_operator.Prelude.{
  ℕ, String, Bool, Option, none, some, List, [], ◌∷◌, ◌==◌, if◌then◌else◌,
}
use meteor_operator.Kube.Meta.{NamespacedName, ObjectMeta, named}
use meteor_operator.Kube.Conditions.{condition_true, condition_false}
use meteor_operator.Kube.Client.{Error, Resource, Outcome, done, ◌>>=◌}
use meteor_operator.Kube.Library.{Library}
use meteor_operator.Api.Shower.{Shower}
use meteor_operator.Shower.Objects.{
  ServiceAccount, PolicyRule, Role, Subject, RoleRef, RoleBinding, Service, ServiceMonitor,
  Deployment, Route,
}
use meteor_operator.Shower.Ensure.{
  Ensured, get_failed, create_failed, update_failed, created, kept, error_of, ensure,
}
use meteor_operator.Shower.Desired.{
  Groups, shower_name, pipeline_name, external_name, get_selector, shower_rules, pipeline_rules,
  external_rules, account, role_ref, change_role, change_binding, service_ports, change_service,
  endpoints, change_monitor, deployment_spec, change_deployment,
}
use meteor_operator.Shower.Route.{route_url, ensure_route}

-- What the operator's client gives this controller.
pub record Api (W : Type 0) : Type 0 where
  pub showers : Resource W Shower
  pub service_accounts : Resource W ServiceAccount
  pub roles : Resource W Role
  pub role_bindings : Resource W RoleBinding
  pub deployments : Resource W Deployment
  pub services : Resource W Service
  pub service_monitors : Resource W ServiceMonitor
  pub routes : Resource W Route

-- How a reconciler ends: its error, `r.Shower`, and the cluster.
pub record Turn (W : Type 0) : Type 0 where
  pub error : Option Error
  pub shower : Shower
  pub world : W

abbrev pub turn : {W T : Type 0} → Shower → Ensured T × W → Turn W
turn s (e, w) = record { error = error_of e; shower = s; world = w }

abbrev pub key : String → String → NamespacedName
key name namespace = record { name = name; namespace = namespace }

abbrev pub set_condition : Library → Shower → (type status reason message : String) → Shower
set_condition lib s type status reason message = record s {
  status = record s.status {
    conditions = lib.conditions.set_status_condition s.status.conditions (record {
      type = type;
      status = status;
      observed_generation = s.meta.generation;
      reason = reason;
      message = message;
    });
  };
}

-- The loop over the Deployment's conditions: it ends at the first of the type "Available".
abbrev pub copy_available : Library → Shower → List (String × String) → Shower
copy_available lib s [] = s
copy_available lib s ((type, status) ∷ cs) =
    let rest = copy_available lib s cs in
    if type == "Available"
    then (if status == condition_true
        then set_condition lib s "Deployment" condition_true "Ready" "Deployment is ready."
        else s)
    else rest

-- The conditions that `ReconcileDeployment` sets.
unfoldable pub note_deployment : Library → Shower → Ensured Deployment → Shower
note_deployment lib s (create_failed e) =
    set_condition lib s "Deployment" condition_false "CreateError"
      "Deployment has failed to create."
note_deployment lib s created =
    set_condition lib s "Deployment" condition_false "Created"
      "Deployment has been created. Waiting for it to become ready."
note_deployment lib s (kept res) = copy_available lib s res.conditions
note_deployment lib s (get_failed e) = s
note_deployment lib s (update_failed e) = s

-- The URL that `ReconcileRoute` sets.
unfoldable pub note_route : Shower → Ensured Route → Shower
unfolding route_url
note_route s (kept res) = record s { status = record s.status { url = route_url res } }
note_route s _ = s

module _ {W : Type 0} (lib : Library) (groups : Groups) (api : Api W) where
  -- The metadata of a new object.
  abbrev pub owned_meta : Shower → (name namespace : String) → ObjectMeta
  owned_meta s name namespace =
      lib.set_controller_reference s.type_meta s.meta (named name namespace)

  abbrev pub ensure_role : (name namespace : String) → List PolicyRule → Shower → W → Turn W
  ensure_role name namespace rules s w = turn s (
      ensure api.roles (key name namespace)
        (record { meta = owned_meta s name namespace; rules = rules }) (change_role rules) w)

  abbrev pub ensure_binding :
      (name namespace : String) → List Subject → RoleRef → Shower → W → Turn W
  ensure_binding name namespace subjects ref s w = turn s (
      ensure api.role_bindings (key name namespace)
        (record { meta = owned_meta s name namespace; subjects = subjects; role_ref = ref })
        (change_binding subjects ref) w)

  -- The namespace is that of the request, also below.
  abbrev pub ensure_service_account : (namespace : String) → Shower → W → Turn W
  ensure_service_account namespace s w = turn s (
      ensure api.service_accounts (key (shower_name s) namespace)
        (record { meta = owned_meta s (shower_name s) namespace }) (λ _. none) w)

  abbrev pub ensure_service : (namespace : String) → Shower → W → Turn W
  ensure_service namespace s w = turn s (
      ensure api.services (key (shower_name s) namespace)
        (record {
          meta = owned_meta s (shower_name s) namespace;
          selector = get_selector (shower_name s);
          type = "ClusterIP";
          ports = service_ports;
        })
        (change_service (shower_name s)) w)

  abbrev pub ensure_service_monitor : (namespace : String) → Shower → W → Turn W
  ensure_service_monitor namespace s w = turn s (
      ensure api.service_monitors (key (shower_name s) namespace)
        (record {
          meta = owned_meta s (shower_name s) namespace;
          selector = get_selector (shower_name s);
          endpoints = endpoints;
          other = [];
        })
        (change_monitor (shower_name s)) w)

  abbrev pub reconcile_deployment : (namespace : String) → Shower → W → Turn W
  reconcile_deployment namespace s w =
      let (e, w') =
        ensure api.deployments (key (shower_name s) namespace)
          (record {
            meta = owned_meta s (shower_name s) namespace;
            spec = deployment_spec s;
            conditions = [];
          })
          (change_deployment s) w in
      turn (note_deployment lib s e) (e, w')

  abbrev pub reconcile_route : (namespace : String) → Shower → W → Outcome (Turn W)
  reconcile_route namespace s w =
      ensure_route lib api.routes s namespace w >>= λ (e, w'). done (turn (note_route s e) (e, w'))

  abbrev pub reconcile_shower_role : (namespace : String) → Shower → W → Turn W
  reconcile_shower_role namespace s w = ensure_role (shower_name s) namespace shower_rules s w

  abbrev pub reconcile_pipeline_role : (namespace : String) → Shower → W → Turn W
  reconcile_pipeline_role namespace s w =
      ensure_role (pipeline_name s) namespace (pipeline_rules groups) s w

  abbrev pub reconcile_external_role : (external namespace : String) → Shower → W → Turn W
  reconcile_external_role external namespace s w =
      ensure_role (external_name namespace s) external (external_rules groups) s w

  abbrev pub reconcile_shower_binding : (namespace : String) → Shower → W → Turn W
  reconcile_shower_binding namespace s w =
      ensure_binding (shower_name s) namespace (account (shower_name s) namespace)
        (role_ref groups (shower_name s)) s w

  abbrev pub reconcile_pipeline_binding : (namespace : String) → Shower → W → Turn W
  reconcile_pipeline_binding namespace s w =
      ensure_binding (pipeline_name s) namespace (account "pipeline" namespace)
        (role_ref groups (pipeline_name s)) s w

  abbrev pub reconcile_external_binding : (external namespace : String) → Shower → W → Turn W
  reconcile_external_binding external namespace s w =
      ensure_binding (external_name namespace s) external (account "pipeline" namespace)
        (role_ref groups (external_name namespace s)) s w

  abbrev pub Action : Type 0
  Action = Shower → W → Outcome (Turn W)

  -- The actions for the external services that have a namespace.
  abbrev pub external_actions : (namespace : String) → List String → List Action
  external_actions namespace [] = []
  external_actions namespace (external ∷ externals) =
      let rest = external_actions namespace externals in
      if external == ""
      then rest
      else (λ (s : Shower) (w : W). done (reconcile_external_role external namespace s w))
        ∷ (λ (s : Shower) (w : W). done (reconcile_external_binding external namespace s w))
        ∷ rest

  abbrev pub own_actions : (namespace : String) → List Action
  own_actions namespace =
      (λ (s : Shower) (w : W). done (ensure_service_account namespace s w))
      ∷ (λ (s : Shower) (w : W). done (reconcile_shower_role namespace s w))
      ∷ (λ (s : Shower) (w : W). done (reconcile_shower_binding namespace s w))
      ∷ (λ (s : Shower) (w : W). done (reconcile_pipeline_role namespace s w))
      ∷ (λ (s : Shower) (w : W). done (reconcile_pipeline_binding namespace s w))
      ∷ (λ (s : Shower) (w : W). done (reconcile_deployment namespace s w))
      ∷ (λ (s : Shower) (w : W). done (ensure_service namespace s w))
      ∷ (λ (s : Shower) (w : W). done (ensure_service_monitor namespace s w))
      ∷ (λ (s : Shower) (w : W). reconcile_route namespace s w)
      ∷ []

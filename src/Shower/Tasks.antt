-- ===== src/Shower/Tasks.antt =====
-- The actions of controllers/shower as tasks: a kind of object, and the place that the object has.
pub mod Acts
pub mod Cluster
pub mod Goals
pub mod Places
pub mod Ready
pub mod Core
pub mod Runs
use meteor_operator.Prelude.{
  String, ◌≡◌, refl, Bool, false, Option, none, some, List, [], ◌∷◌, ◌++◌, ◌==◌, map, StringMap,
  if◌then◌else◌,
}
use meteor_operator.Kube.Meta.{NamespacedName, ObjectMeta, named, key_of}
use meteor_operator.Kube.Client.{Resource, Outcome, done}
use meteor_operator.Kube.Library.{Library}
use meteor_operator.Api.Shower.{Shower, ShowerStatus}
use meteor_operator.Shower.Objects.{
  ServiceAccount, PolicyRule, Role, Subject, RoleRef, RoleBinding, ServicePort, Service, Endpoint,
  ServiceMonitor, DeploymentSpec, Deployment, RouteTarget, Route,
}
use meteor_operator.Shower.Ensure.{Ensured, ensure}
use meteor_operator.Shower.Desired.{
  Groups, shower_name, pipeline_name, external_name, get_selector, shower_rules, pipeline_rules,
  external_rules, account, role_ref, change_role, change_binding, service_ports, change_service,
  endpoints, change_monitor, deployment_spec, change_deployment,
}
use meteor_operator.Shower.Route.{route_target, route_port, route_differs, new_route}
use meteor_operator.Shower.Route.Copies.{merge}
use meteor_operator.Shower.Actions.{
  Api, Turn, Action, turn, note_deployment, note_route, key, owned_meta, ensure_service_account,
  ensure_role, ensure_binding, ensure_service, ensure_service_monitor, reconcile_deployment,
  reconcile_route, own_actions, external_actions,
}

pub data Kind : Type 0 where
  accounts : Kind
  roles : Kind
  bindings : Kind
  deployments : Kind
  services : Kind
  monitors : Kind
  routes : Kind

abbrev pub Object : Kind → Type 0
Object Kind.accounts = ServiceAccount
Object Kind.roles = Role
Object Kind.bindings = RoleBinding
Object Kind.deployments = Deployment
Object Kind.services = Service
Object Kind.monitors = ServiceMonitor
Object Kind.routes = Route

abbrev pub meta_of : (K : Kind) → Object K → ObjectMeta
meta_of Kind.accounts x = x.meta
meta_of Kind.roles x = x.meta
meta_of Kind.bindings x = x.meta
meta_of Kind.deployments x = x.meta
meta_of Kind.services x = x.meta
meta_of Kind.monitors x = x.meta
meta_of Kind.routes x = x.meta

abbrev pub place_of : (K : Kind) → Object K → NamespacedName
place_of K x = key_of (meta_of K x)

-- What the reconcilers set in an object that is not a Route.
abbrev pub Content : Kind → Type 0
Content Kind.accounts = Unit {0}
Content Kind.roles = List PolicyRule
Content Kind.bindings = List Subject × RoleRef
Content Kind.deployments = DeploymentSpec
Content Kind.services = StringMap × String × List ServicePort
Content Kind.monitors = StringMap × List Endpoint × List (String × String)
Content Kind.routes = Unit {0}

abbrev pub content : (K : Kind) → Object K → Content K
content Kind.accounts x = tt
content Kind.roles x = x.rules
content Kind.bindings x = (x.subjects, x.role_ref)
content Kind.deployments x = x.spec
content Kind.services x = (x.selector, x.type, x.ports)
content Kind.monitors x = (x.selector, x.endpoints, x.other)
content Kind.routes x = tt

abbrev pub resource : {W : Type 0} → Api W → (K : Kind) → Resource W (Object K)
resource api Kind.accounts = api.service_accounts
resource api Kind.roles = api.roles
resource api Kind.bindings = api.role_bindings
resource api Kind.deployments = api.deployments
resource api Kind.services = api.services
resource api Kind.monitors = api.service_monitors
resource api Kind.routes = api.routes

-- Whom an object serves: the Shower, its pipelines, or an external service in the namespace given.
pub data Slot : Type 0 where
  own : Slot
  pipeline : Slot
  external : String → Slot

pub record Task : Type 0 where
  pub kind : Kind
  pub slot : Slot

abbrev pub slot_name : (home : String) → Shower → Slot → String
slot_name home s Slot.own = shower_name s
slot_name home s Slot.pipeline = pipeline_name s
slot_name home s (Slot.external n) = external_name home s

abbrev pub slot_namespace : (home : String) → Slot → String
slot_namespace home Slot.own = home
slot_namespace home Slot.pipeline = home
slot_namespace home (Slot.external n) = n

abbrev pub slot_key : (home : String) → Shower → Slot → NamespacedName
slot_key home s σ = key (slot_name home s σ) (slot_namespace home σ)

abbrev pub slot_rules : Groups → Slot → List PolicyRule
slot_rules groups Slot.own = shower_rules
slot_rules groups Slot.pipeline = pipeline_rules groups
slot_rules groups (Slot.external n) = external_rules groups

abbrev pub slot_subjects : (home : String) → Shower → Slot → List Subject
slot_subjects home s Slot.own = account (shower_name s) home
slot_subjects home s Slot.pipeline = account "pipeline" home
slot_subjects home s (Slot.external n) = account "pipeline" home

-- A Route with what the ingress asks for.
abbrev pub aimed : Shower → Route → Route
aimed s x = record x {
  meta = record x.meta {
    annotations = merge s.spec.ingress.annotations x.meta.annotations;
    labels = merge s.spec.ingress.labels x.meta.labels;
  };
  host = s.spec.ingress.host;
  path = s.spec.ingress.path;
  to = route_target s;
  port = route_port;
}

abbrev pub change_aim : Shower → Route → Option Route
change_aim s x = if route_differs s x then some (aimed s x) else none

-- What is changed in an object that is there.
abbrev pub change :
    Groups → (home : String) → Shower → (K : Kind) → Slot → Object K → Option (Object K)
change groups home s Kind.accounts σ = λ _. none
change groups home s Kind.roles σ = change_role (slot_rules groups σ)
change groups home s Kind.bindings σ =
    change_binding (slot_subjects home s σ) (role_ref groups (slot_name home s σ))
change groups home s Kind.deployments σ = change_deployment s
change groups home s Kind.services σ = change_service (shower_name s)
change groups home s Kind.monitors σ = change_monitor (shower_name s)
change groups home s Kind.routes σ = change_aim s

module _ {W : Type 0} (lib : Library) (groups : Groups) (api : Api W) (home : String) where
  -- The metadata of a new object.
  abbrev pub fresh_meta : Shower → Slot → ObjectMeta
  fresh_meta s σ = owned_meta lib groups api s (slot_name home s σ) (slot_namespace home σ)

  abbrev pub fresh : Shower → (K : Kind) → Slot → Object K
  fresh s Kind.accounts σ = record { meta = fresh_meta s σ }
  fresh s Kind.roles σ = record { meta = fresh_meta s σ; rules = slot_rules groups σ }
  fresh s Kind.bindings σ = record {
    meta = fresh_meta s σ;
    subjects = slot_subjects home s σ;
    role_ref = role_ref groups (slot_name home s σ);
  }
  fresh s Kind.deployments σ = record {
    meta = fresh_meta s σ;
    spec = deployment_spec s;
    conditions = [];
  }
  fresh s Kind.services σ = record {
    meta = fresh_meta s σ;
    selector = get_selector (shower_name s);
    type = "ClusterIP";
    ports = service_ports;
  }
  fresh s Kind.monitors σ = record {
    meta = fresh_meta s σ;
    selector = get_selector (shower_name s);
    endpoints = endpoints;
    other = [];
  }
  fresh s Kind.routes σ = record {
    meta =
        lib.set_controller_reference s.type_meta s.meta
          (record (named (slot_name home s σ) (slot_namespace home σ)) {
            annotations = s.spec.ingress.annotations;
            labels = s.spec.ingress.labels;
          });
    host = s.spec.ingress.host;
    path = s.spec.ingress.path;
    to = route_target s;
    port = route_port;
    tls = false;
  }

  -- How a task's object is brought about.
  abbrev pub ensure_task : (t : Task) → Shower → W → Ensured (Object t.kind) × W
  ensure_task t s w =
      ensure (resource api t.kind) (slot_key home s t.slot) (fresh s t.kind t.slot)
        (change groups home s t.kind t.slot) w

-- ===== src/Shower/Tests.antt =====
-- Reconciliations of a sample Shower, and the theorems about them at sample inputs.
use meteor_operator.Prelude.{◌≡◌, refl, ◌↔◌, true, Option, none, some, [], ◌∷◌, sprintf, List}
use meteor_operator.Kube.Meta.{named}
use meteor_operator.Kube.Client.{done, panic}
use meteor_operator.Kube.Doubles.{plain_library, constant, single}
use meteor_operator.Api.Shower.{Shower}
use meteor_operator.Meteor.Samples.{shower}
use meteor_operator.Shower.Objects.{
  ServiceAccount, Role, RoleBinding, Deployment, Service, ServiceMonitor, Route,
}
use meteor_operator.Shower.Ensure.{ensure}
use meteor_operator.Shower.Desired.{
  Groups, shower_name, shower_rules, change_role, deployment_spec, role_ref, get_selector,
}
use meteor_operator.Shower.Route.{route_differs, ensure_route, route_url}
use meteor_operator.Shower.Route.Laws.{LacksMap, ensure_route-eq-panic_iff}
use meteor_operator.Shower.Actions.{Api, Action, ensure_role, ensure_service_account}
use meteor_operator.Shower.Reconcile.{run_actions}

abbrev groups : Groups
groups = record {
  tekton = "tekton.dev";
  image = "image.openshift.io";
  route = "route.openshift.io";
  apps = "apps";
  rbac = "rbac.authorization.k8s.io";
}

abbrev one : Shower
one = shower "one"

-- A Route that points elsewhere.
abbrev strayed : Route
strayed = record {
  meta = named "meteor-shower-one" "default";
  host = "";
  path = "";
  to = record { kind = "Service"; name = "other"; weight = some 100 };
  port = none;
  tls = true;
}

abbrev labelled : Shower
labelled = record one {
  spec = record one.spec {
    ingress = record one.spec.ingress { labels = some (("app", "shower") ∷ []) };
  };
}

abbrev role : Role
role = record { meta = named "meteor-shower-one" "default"; rules = [] }

abbrev deployment : Deployment
deployment = record {
  meta = named "meteor-shower-one" "default";
  spec = deployment_spec one;
  conditions = ("Progressing", "True") ∷ ("Available", "True") ∷ [];
}

abbrev World : Type 0
World = Option Deployment

abbrev api : Api World
api = record {
  showers = constant Shower one;
  service_accounts =
      constant ServiceAccount (record { meta = named "meteor-shower-one" "default" });
  roles = constant Role role;
  role_bindings = constant RoleBinding (record {
    meta = named "meteor-shower-one" "default";
    subjects = [];
    role_ref = role_ref groups "";
  });
  deployments = single Deployment;
  services = constant Service (record {
    meta = named "meteor-shower-one" "default";
    selector = get_selector "meteor-shower-one";
    type = "ClusterIP";
    ports = [];
  });
  service_monitors = constant ServiceMonitor (record {
    meta = named "meteor-shower-one" "default";
    selector = none;
    endpoints = [];
    other = [];
  });
  routes = constant Route strayed;
}

urls : route_url strayed ≡ "https://"
unfolding route_url sprintf
urls = refl

ensure_route-eq-panic_iff_example :
    (ensure_route plain_library (constant {W = World} Route strayed) labelled "default" none
      ≡ panic)
    ↔ (route_differs labelled strayed ≡ true) × LacksMap labelled strayed
ensure_route-eq-panic_iff_example =
    ensure_route-eq-panic_iff plain_library (constant Route strayed) labelled "default" none none
      strayed refl

-- The first two actions.
abbrev first_actions : List (Action plain_library groups api)
first_actions =
    (λ s w. done (ensure_service_account plain_library groups api "default" s w))
    ∷ (λ s w.
        done (ensure_role plain_library groups api (shower_name s) "default" shower_rules s w))
    ∷ []

first_actions_run :
    run_actions plain_library groups api first_actions one none
    ≡ done (record { error = none; shower = one; world = none })
unfolding run_actions ensure change_role
first_actions_run = refl

-- ===== src/Shower/Desired.antt =====
-- What the reconcilers of controllers/shower want: names, rules, and specifications.
use meteor_operator.Prelude.{
  String, not, ◌&&◌, ◌||◌, Option, none, some, List, [], ◌∷◌, ◌==◌, StringMap, sprintf,
  if◌then◌else◌,
}
use meteor_operator.Api.Common.{group}
use meteor_operator.Api.Shower.{Shower}
use meteor_operator.Meteor.Owner.{selector_key}
use meteor_operator.Shower.Objects.{
  PolicyRule, Role, Subject, RoleRef, RoleBinding, ServicePort, Service, Endpoint, ServiceMonitor,
  DeploymentSpec, Deployment, equal_lists, equal_rules, equal_subjects, equal_role_refs,
  equal_ports, equal_endpoints, equal_pairs, equal_maps, equal_templates, Address, same_address,
}

-- The API groups that the packages of Tekton, OpenShift and Kubernetes name.
pub record Groups : Type 0 where
  pub tekton : String
  pub image : String
  pub route : String
  pub apps : String
  pub rbac : String

unfoldable pub shower_name : Shower → String
shower_name s = sprintf ("meteor-shower-" ∷ s.meta.name ∷ [])

unfoldable pub pipeline_name : Shower → String
pipeline_name s = sprintf ("meteor-pipeline-" ∷ s.meta.name ∷ [])

unfoldable pub external_name : (namespace : String) → Shower → String
external_name namespace s = sprintf ("meteor-external-" ∷ namespace ∷ "-" ∷ s.meta.name ∷ [])

abbrev pub get_selector : String → StringMap
get_selector name = some ((selector_key, name) ∷ [])

abbrev pub all_verbs : List String
all_verbs = "get" ∷ "list" ∷ "watch" ∷ "create" ∷ "update" ∷ "patch" ∷ "delete" ∷ []

abbrev pub rule : String → List String → List String → PolicyRule
rule api_group resources verbs = record {
  api_groups = api_group ∷ [];
  resources = resources;
  verbs = verbs;
  resource_names = [];
  non_resource_urls = [];
}

abbrev pub shower_rules : List PolicyRule
shower_rules =
    rule group ("meteors" ∷ []) all_verbs ∷ rule group ("meteors/status" ∷ []) ("get" ∷ []) ∷ []

abbrev pub pipeline_rules : Groups → List PolicyRule
pipeline_rules g =
    rule g.tekton ("pipelineruns/finalizers" ∷ []) ("update" ∷ [])
    ∷ rule g.image ("imagestreams" ∷ "imagestreams/layers" ∷ []) all_verbs
    ∷ rule g.route ("routes" ∷ "routes/custom-host" ∷ []) all_verbs
    ∷ rule g.apps ("deployments" ∷ []) all_verbs
    ∷ rule "" ("services" ∷ []) all_verbs
    ∷ rule group ("meteors/finalizers" ∷ []) ("update" ∷ [])
    ∷ []

abbrev pub external_rules : Groups → List PolicyRule
external_rules g =
    rule g.image ("imagestreams" ∷ "imagestreams/layers" ∷ []) all_verbs
    ∷ rule g.route ("routes" ∷ "routes/status" ∷ []) ("get" ∷ "list" ∷ "watch" ∷ [])
    ∷ rule group ("comas/finalizers" ∷ []) ("update" ∷ [])
    ∷ []

abbrev pub account : (name namespace : String) → List Subject
account name namespace =
    record { kind = "ServiceAccount"; api_group = ""; name = name; namespace = namespace } ∷ []

abbrev pub role_ref : Groups → String → RoleRef
role_ref g name = record { api_group = g.rbac; kind = "Role"; name = name }

-- What `reconcileRole` and the other reconcilers change in an object that they find.
unfoldable pub change_role : List PolicyRule → Role → Option Role
change_role rules res =
    if not (equal_lists equal_rules res.rules rules)
    then some (record res { rules = rules })
    else none

unfoldable pub change_binding : List Subject → RoleRef → RoleBinding → Option RoleBinding
change_binding subjects ref res =
    if not (equal_lists equal_subjects res.subjects subjects)
      || not (equal_role_refs res.role_ref ref)
    then some (record res { subjects = subjects; role_ref = ref })
    else none

abbrev pub service_ports : List ServicePort
service_ports =
    record {
      name = "http";
      protocol = "TCP";
      port = 3000;
      target_port = 3000;
      node_port = 0;
      app_protocol = none;
    }
    ∷ []

unfoldable pub change_service : String → Service → Option Service
change_service name res =
    if not (equal_maps res.selector (get_selector name))
      || not (res.type == "ClusterIP")
      || not (equal_lists equal_ports res.ports service_ports)
    then some
        (record res { selector = get_selector name; type = "ClusterIP"; ports = service_ports })
    else none

abbrev pub endpoints : List Endpoint
endpoints = record { port = "http"; scheme = "http"; path = "/metrics"; other = [] } ∷ []

unfoldable pub change_monitor : String → ServiceMonitor → Option ServiceMonitor
change_monitor name res =
    if not (
      equal_maps res.selector (get_selector name)
      && equal_lists equal_endpoints res.endpoints endpoints
      && equal_lists equal_pairs res.other [])
    then some (record res { selector = get_selector name; endpoints = endpoints; other = [] })
    else none

abbrev pub compute : StringMap
compute = some (("cpu", "100m") ∷ ("memory", "300Mi") ∷ [])

unfoldable pub deployment_spec : Shower → DeploymentSpec
unfolding shower_name
deployment_spec s = record {
  replicas = s.spec.replicas;
  selector = get_selector (shower_name s);
  labels = get_selector (shower_name s);
  service_account_name = shower_name s;
  containers =
      record {
        name = "shower";
        image = s.status.image;
        image_pull_policy = "Always";
        limits = compute;
        requests = compute;
        ports = ("http", 3000) ∷ [];
        env = s.spec.env;
      }
      ∷ [];
}

-- The address that `Replicas` holds in a Deployment that `Get` has filled in: the server always
-- sends a number, which is decoded into a variable of its own.
abbrev pub replicas_address : Deployment → Address
replicas_address res = Address.in_object

-- `res.Spec.Replicas != desiredSpec.Replicas` compares addresses; the rest of the specification is
-- compared by its values.
unfoldable pub change_deployment : Shower → Deployment → Option Deployment
unfolding deployment_spec
change_deployment s res =
    if not (same_address (replicas_address res) Address.in_shower)
      || not (equal_maps res.spec.selector (deployment_spec s).selector)
      || not (equal_templates res.spec (deployment_spec s))
    then some (record res { spec = deployment_spec s })
    else none

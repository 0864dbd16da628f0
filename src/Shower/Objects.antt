-- ===== src/Shower/Objects.antt =====
-- The objects that the controller of Showers writes, with the fields that it sets, reads or compares,
-- and `reflect.DeepEqual` on their parts.
use meteor_operator.Prelude.{
  ℕ, String, Bool, true, false, ◌&&◌, Option, none, some, List, [], ◌∷◌, ◌==◌, eqb, StringMap,
  length, lookup,
}
use meteor_operator.Prelude.Int.{ℤ}
use meteor_operator.Kube.Meta.{ObjectMeta}

pub record ServiceAccount : Type 0 where
  pub meta : ObjectMeta

pub record PolicyRule : Type 0 where
  pub api_groups : List String
  pub resources : List String
  pub verbs : List String
  pub resource_names : List String
  pub non_resource_urls : List String

pub record Role : Type 0 where
  pub meta : ObjectMeta
  pub rules : List PolicyRule

pub record Subject : Type 0 where
  pub kind : String
  pub api_group : String
  pub name : String
  pub namespace : String

pub record RoleRef : Type 0 where
  pub api_group : String
  pub kind : String
  pub name : String

pub record RoleBinding : Type 0 where
  pub meta : ObjectMeta
  pub subjects : List Subject
  pub role_ref : RoleRef

pub record ServicePort : Type 0 where
  pub name : String
  pub protocol : String
  pub port : ℕ
  pub target_port : ℕ
  pub node_port : ℕ
  pub app_protocol : Option String

pub record Service : Type 0 where
  pub meta : ObjectMeta
  pub selector : StringMap
  pub type : String
  pub ports : List ServicePort

-- `other` is what the fields of the specification that are not named here hold, by their names.
pub record Endpoint : Type 0 where
  pub port : String
  pub scheme : String
  pub path : String
  pub other : List (String × String)

pub record ServiceMonitor : Type 0 where
  pub meta : ObjectMeta
  pub selector : StringMap
  pub endpoints : List Endpoint
  pub other : List (String × String)

pub record Container : Type 0 where
  pub name : String
  pub image : String
  pub image_pull_policy : String
  pub limits : StringMap
  pub requests : StringMap
  pub ports : List (String × ℕ)
  pub env : List (String × String)

pub record DeploymentSpec : Type 0 where
  pub replicas : ℤ
  pub selector : StringMap
  pub labels : StringMap  -- of the template
  pub service_account_name : String
  pub containers : List Container

-- The conditions are types with their statuses.
pub record Deployment : Type 0 where
  pub meta : ObjectMeta
  pub spec : DeploymentSpec
  pub conditions : List (String × String)

pub record RouteTarget : Type 0 where
  pub kind : String
  pub name : String
  pub weight : Option ℕ

-- `port` is the text of `TargetPort`; of the TLS configuration only its presence is read.
pub record Route : Type 0 where
  pub meta : ObjectMeta
  pub host : String
  pub path : String
  pub to : RouteTarget
  pub port : Option String
  pub tls : Bool

abbrev pub equal_lists {ℓ} : {A : Type ℓ} → (A → A → Bool) → List A → List A → Bool
equal_lists eq [] [] = true
equal_lists eq [] (_ ∷ _) = false
equal_lists eq (_ ∷ _) [] = false
equal_lists eq (x ∷ xs) (y ∷ ys) = eq x y && equal_lists eq xs ys

abbrev pub equal_texts : List String → List String → Bool
equal_texts xs ys = equal_lists ◌==◌ xs ys

abbrev pub equal_rules : PolicyRule → PolicyRule → Bool
equal_rules a b =
    equal_texts a.api_groups b.api_groups
    && equal_texts a.resources b.resources
    && equal_texts a.verbs b.verbs
    && equal_texts a.resource_names b.resource_names
    && equal_texts a.non_resource_urls b.non_resource_urls

abbrev pub equal_subjects : Subject → Subject → Bool
equal_subjects a b =
    a.kind == b.kind && a.api_group == b.api_group && a.name == b.name && a.namespace == b.namespace

abbrev pub equal_role_refs : RoleRef → RoleRef → Bool
equal_role_refs a b = a.api_group == b.api_group && a.kind == b.kind && a.name == b.name

abbrev pub equal_options : Option String → Option String → Bool
equal_options none none = true
equal_options none (some _) = false
equal_options (some _) none = false
equal_options (some a) (some b) = a == b

abbrev pub equal_ports : ServicePort → ServicePort → Bool
equal_ports a b =
    a.name == b.name
    && a.protocol == b.protocol
    && eqb a.port b.port
    && eqb a.target_port b.target_port
    && eqb a.node_port b.node_port
    && equal_options a.app_protocol b.app_protocol

abbrev pub equal_pairs : String × String → String × String → Bool
equal_pairs a b = a.0 == b.0 && a.1 == b.1

abbrev pub equal_endpoints : Endpoint → Endpoint → Bool
equal_endpoints a b =
    a.port == b.port
    && a.scheme == b.scheme
    && a.path == b.path
    && equal_lists equal_pairs a.other b.other

abbrev pub has_value : String → Option String → Bool
has_value v none = false
has_value v (some u) = u == v

abbrev pub entries_in : List (String × String) → List (String × String) → Bool
entries_in [] n = true
entries_in ((k, v) ∷ m) n = has_value v (lookup k n) && entries_in m n

-- Maps with the same number of keys and the same values at them.
abbrev pub equal_maps : StringMap → StringMap → Bool
equal_maps none none = true
equal_maps none (some _) = false
equal_maps (some _) none = false
equal_maps (some m) (some n) = eqb (length m) (length n) && entries_in m n

abbrev pub equal_weights : Option ℕ → Option ℕ → Bool
equal_weights none none = true
equal_weights none (some _) = false
equal_weights (some _) none = false
equal_weights (some a) (some b) = eqb a b

abbrev pub equal_targets : RouteTarget → RouteTarget → Bool
equal_targets a b = a.kind == b.kind && a.name == b.name && equal_weights a.weight b.weight

abbrev pub equal_container_ports : String × ℕ → String × ℕ → Bool
equal_container_ports a b = a.0 == b.0 && eqb a.1 b.1

abbrev pub equal_containers : Container → Container → Bool
equal_containers a b =
    a.name == b.name
    && a.image == b.image
    && a.image_pull_policy == b.image_pull_policy
    && equal_maps a.limits b.limits
    && equal_maps a.requests b.requests
    && equal_lists equal_container_ports a.ports b.ports
    && equal_lists equal_pairs a.env b.env

-- `reflect.DeepEqual` on the templates.
abbrev pub equal_templates : DeploymentSpec → DeploymentSpec → Bool
equal_templates a b =
    equal_maps a.labels b.labels
    && a.service_account_name == b.service_account_name
    && equal_lists equal_containers a.containers b.containers

-- The places that a pointer to a number of replicas may hold: none, a variable of the object that
-- `Get` has filled in, or the field of the Shower.
pub data Address : Type 0 where
  nil : Address
  in_object : Address
  in_shower : Address

abbrev pub same_address : Address → Address → Bool
same_address Address.nil Address.nil = true
same_address Address.in_object Address.in_object = true
same_address Address.in_shower Address.in_shower = true
same_address _ _ = false

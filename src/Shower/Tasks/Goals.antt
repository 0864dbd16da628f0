-- ===== src/Shower/Tasks/Goals.antt =====
-- What the reconcilers of controllers/shower change, and when there is nothing left to change.
use mathlib.Core.Path.{subst}
use meteor_operator.Prelude.{
  ◌≢◌, ◌∷◌, eq_iff, String, ◌≡◌, refl, sym, ap, ◌∙◌, Bool, false, not, ◌&&◌, ◌||◌, none, some,
  some-injective, List, [], ◌==◌, StringMap, Bool-cases, inl, inr, if◌then◌else◌,
}
use meteor_operator.Kube.Library.{Library}
use meteor_operator.Api.Shower.{Shower}
use meteor_operator.Shower.Objects.{
  PolicyRule, Subject, RoleRef, ServicePort, Endpoint, Route, RouteTarget, equal_lists, equal_rules,
  equal_subjects, equal_role_refs, equal_ports, equal_endpoints, equal_pairs, equal_maps,
}
use meteor_operator.Shower.Desired.{
  Groups, shower_name, get_selector, role_ref, change_role, change_binding, service_ports,
  change_service, endpoints, change_monitor, change_deployment,
}
use meteor_operator.Shower.Route.{entries, route_differs, route_target, route_port}
use meteor_operator.Shower.Route.Copies.{AreKeyed, Has, merge_same, merge-Has, self-Has}
use meteor_operator.Kube.Meta.{TypeMeta, ObjectMeta, named}
use meteor_operator.Shower.Actions.{Api}
use meteor_operator.Shower.Actions.Laws.{equal_lists_refl, equal_rules_refl}
use meteor_operator.Shower.Actions.Settle.{
  equal_subjects_refl, equal_role_refs_refl, get_selector_refl,
}
use meteor_operator.Shower.Actions.Confined.{if-eq-some}
use meteor_operator.Shower.Tasks.{
  Kind, Object, place_of, content, Slot, slot_name, slot_rules, slot_subjects, slot_namespace,
  change, aimed, change_aim, fresh,
}
use meteor_operator.Shower.Tasks.Cluster.{
  default_weight, Extends, IsRouteStored, IsStored, fill, IsFixed,
}

-- A change that a test on the content decides on.
if_same :
    {C T : Type 0} (differs : C → Bool) (given wanted : C) (y : T)
    → given ≡ wanted
    → differs wanted ≡ false
    → (if differs given then some y else none) ≡ none
if_same differs given wanted y h f =
    ap (λ c. if differs c then some y else none) h ∙ ap (λ b. if b then some y else none) f

role_same : (rules : List PolicyRule) → not (equal_lists equal_rules rules rules) ≡ false
role_same rules = ap not (equal_lists_refl equal_rules rules equal_rules_refl)

binding_differs : List Subject → RoleRef → List Subject × RoleRef → Bool
binding_differs subjects ref p =
    not (equal_lists equal_subjects p.0 subjects) || not (equal_role_refs p.1 ref)

binding_same :
    (subjects : List Subject) (ref : RoleRef) → binding_differs subjects ref (subjects, ref) ≡ false
unfolding binding_differs
binding_same subjects ref =
    rw (equal_lists_refl equal_subjects subjects equal_subjects_refl, equal_role_refs_refl ref) refl

service_differs : String → StringMap × String × List ServicePort → Bool
service_differs name p =
    not (equal_maps p.0 (get_selector name))
    || not (p.1 == "ClusterIP")
    || not (equal_lists equal_ports p.2 service_ports)

service_same :
    (name : String) → service_differs name (get_selector name, "ClusterIP", service_ports) ≡ false
unfolding service_differs
service_same name = rw (get_selector_refl name) refl

monitor_differs : String → StringMap × List Endpoint × List (String × String) → Bool
monitor_differs name p = not (
    equal_maps p.0 (get_selector name)
    && equal_lists equal_endpoints p.1 endpoints
    && equal_lists equal_pairs p.2 [])

monitor_same : (name : String) → monitor_differs name (get_selector name, endpoints, []) ≡ false
unfolding monitor_differs
monitor_same name = rw (get_selector_refl name) refl

-- The controller reference leaves the annotations and the labels as they are.
abbrev pub KeepsMaps : Library → Type 0
KeepsMaps lib =
    (kind : TypeMeta) (owner controlled : ObjectMeta)
    → ((lib.set_controller_reference kind owner controlled).annotations ≡ controlled.annotations)
      × ((lib.set_controller_reference kind owner controlled).labels ≡ controlled.labels)

-- The maps of the ingress have different keys.
abbrev pub HasMaps : Shower → Type 0
HasMaps s = AreKeyed (entries s.spec.ingress.annotations) × AreKeyed (entries s.spec.ingress.labels)

host_kept :
    (given stored : String)
    → (given ≢ "" → stored ≡ given)
    → (if given == "" then stored else given) ≡ stored
host_kept given stored h = elim (Bool-cases (given == "")) [
  | inl e ↦ ap (λ b. if b then stored else given) e
  | inr e ↦ ap (λ b. if b then stored else given) e ∙ sym (h (λ n. cc (e, (eq_iff given "").1 n)))
]

Has-extends :
    (n m : StringMap) (src : List (String × String))
    → Extends n m
    → Has (entries m) src
    → Has (entries n) src
Has-extends n m [] x h = tt
Has-extends n m ((k, v) ∷ src) x (g, h) = (x k v g, Has-extends n m src x h)

-- The Route that is stored is the one that is aimed at, once it is filled in.
aimed-filled :
    (s : Shower) (x z : Route)
    → IsRouteStored x z
    → x.host ≡ s.spec.ingress.host
    → x.path ≡ s.spec.ingress.path
    → x.to ≡ route_target s
    → x.port ≡ route_port
    → Has (entries x.meta.annotations) (entries s.spec.ingress.annotations)
    → Has (entries x.meta.labels) (entries s.spec.ingress.labels)
    → fill Kind.routes z (aimed s z) ≡ z
aimed-filled s x z st h p t q a l =
    let host = host_kept s.spec.ingress.host z.host (λ n. st.host (λ e. n (sym h ∙ e)) ∙ h) in
    let path = sym p ∙ sym st.path in
    let kind = sym (ap (λ (r : RouteTarget). r.kind) t) ∙ sym st.kind in
    let name = sym (ap (λ (r : RouteTarget). r.name) t) ∙ sym st.name in
    let weight = sym (ap (λ (r : RouteTarget). some (default_weight r.weight)) t) ∙ sym st.weight in
    let port = sym q ∙ sym st.port in
    let annotations =
      merge_same s.spec.ingress.annotations z.meta.annotations
        (Has-extends z.meta.annotations x.meta.annotations _ st.annotations a) in
    let labels =
      merge_same s.spec.ingress.labels z.meta.labels
        (Has-extends z.meta.labels x.meta.labels _ st.labels l) in
    λ i. record z {
      meta = record z.meta { annotations = annotations i; labels = labels i };
      host = host i;
      path = path i;
      to = record { kind = kind i; name = name i; weight = weight i };
      port = port i;
    }

aimed-IsFixed :
    (s : Shower) (z : Route)
    → fill Kind.routes z (aimed s z) ≡ z
    → IsFixed Kind.routes (change_aim s) z
aimed-IsFixed s z e = elim (Bool-cases (route_differs s z)) [
  | inr d ↦ inl (ap (λ b. if b then some (aimed s z) else none) d)
  | inl d ↦ inr (aimed s z, ap (λ b. if b then some (aimed s z) else none) d, e)
]

module _ {W : Type 0} (lib : Library) (maps : KeepsMaps lib) (groups : Groups) (api : Api W)
    (home : String) (s : Shower) (keyed : HasMaps s) where
  -- What is stored for a new object is left alone, or written as it is.
  pub goal-IsFixed :
      (K : Kind) (σ : Slot) (z : Object K)
      → IsStored K (fresh lib groups api home s K σ) z
      → IsFixed K (change groups home s K σ) z
  unfolding change_role change_binding change_service change_monitor change_deployment
      binding_differs service_differs monitor_differs
  goal-IsFixed Kind.accounts σ z h = inl refl
  goal-IsFixed Kind.roles σ z h = inl (
      if_same (λ r. not (equal_lists equal_rules r (slot_rules groups σ))) z.rules _ _ h
        (role_same (slot_rules groups σ)))
  goal-IsFixed Kind.bindings σ z h = inl (
      if_same (binding_differs (slot_subjects home s σ) (role_ref groups (slot_name home s σ)))
        (z.subjects, z.role_ref) _ _ h
        (binding_same (slot_subjects home s σ) (role_ref groups (slot_name home s σ))))
  goal-IsFixed Kind.deployments σ z h =
      inr (z, ap (λ d. some (record z { spec = d })) (sym h), refl)
  goal-IsFixed Kind.services σ z h = inl (
      if_same (service_differs (shower_name s)) (z.selector, z.type, z.ports) _
        (record z {
          selector = get_selector (shower_name s);
          type = "ClusterIP";
          ports = service_ports;
        })
        h (service_same (shower_name s)))
  goal-IsFixed Kind.monitors σ z h = inl (
      if_same (monitor_differs (shower_name s)) (z.selector, z.endpoints, z.other) _
        (record z { selector = get_selector (shower_name s); endpoints = endpoints; other = [] }) h
        (monitor_same (shower_name s)))
  goal-IsFixed Kind.routes σ z h =
      let (a, l) =
        maps s.type_meta s.meta (record (named (slot_name home s σ) (slot_namespace home σ)) {
          annotations = s.spec.ingress.annotations;
          labels = s.spec.ingress.labels;
        }) in
      aimed-IsFixed s z (
        aimed-filled s (fresh lib groups api home s Kind.routes σ) z h refl refl refl refl
          (subst (λ n. Has (entries n) (entries s.spec.ingress.annotations)) (sym a)
            (self-Has (entries s.spec.ingress.annotations) keyed.0))
          (subst (λ n. Has (entries n) (entries s.spec.ingress.labels)) (sym l)
            (self-Has (entries s.spec.ingress.labels) keyed.1)))

  -- A change leaves the object in its place.
  pub change-place :
      (K : Kind) (σ : Slot) (x y : Object K)
      → change groups home s K σ x ≡ some y
      → place_of K y ≡ place_of K x
  unfolding change_role change_binding change_service change_monitor change_deployment
  change-place Kind.accounts σ x y h = cc
  change-place Kind.roles σ x y h = ap (place_of Kind.roles) (if-eq-some _ _ y h)
  change-place Kind.bindings σ x y h = ap (place_of Kind.bindings) (if-eq-some _ _ y h)
  change-place Kind.deployments σ x y h = ap (place_of Kind.deployments) (sym (some-injective h))
  change-place Kind.services σ x y h = ap (place_of Kind.services) (if-eq-some _ _ y h)
  change-place Kind.monitors σ x y h = ap (place_of Kind.monitors) (if-eq-some _ _ y h)
  change-place Kind.routes σ x y h = ap (place_of Kind.routes) (if-eq-some _ _ y h)

  -- What is stored for the object that a change has given is left alone, or written as it is.
  pub change-IsFixed :
      (K : Kind) (σ : Slot) (x y z : Object K)
      → change groups home s K σ x ≡ some y
      → IsStored K y z
      → IsFixed K (change groups home s K σ) z
  unfolding change_role change_binding change_service change_monitor change_deployment
  change-IsFixed Kind.accounts σ x y z h g = cc
  change-IsFixed Kind.roles σ x y z h g =
      goal-IsFixed Kind.roles σ z (g ∙ ap (content Kind.roles) (if-eq-some _ _ y h))
  change-IsFixed Kind.bindings σ x y z h g =
      goal-IsFixed Kind.bindings σ z (g ∙ ap (content Kind.bindings) (if-eq-some _ _ y h))
  change-IsFixed Kind.deployments σ x y z h g =
      goal-IsFixed Kind.deployments σ z (g ∙ ap (content Kind.deployments) (sym (some-injective h)))
  change-IsFixed Kind.services σ x y z h g =
      goal-IsFixed Kind.services σ z (g ∙ ap (content Kind.services) (if-eq-some _ _ y h))
  change-IsFixed Kind.monitors σ x y z h g =
      goal-IsFixed Kind.monitors σ z (g ∙ ap (content Kind.monitors) (if-eq-some _ _ y h))
  change-IsFixed Kind.routes σ x y z h g = aimed-IsFixed s z (
      aimed-filled s (aimed s x) z (subst (λ r. IsRouteStored r z) (if-eq-some _ _ y h) g) refl refl
        refl refl (merge-Has s.spec.ingress.annotations x.meta.annotations keyed.0)
        (merge-Has s.spec.ingress.labels x.meta.labels keyed.1))

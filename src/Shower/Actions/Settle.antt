-- ===== src/Shower/Actions/Settle.antt =====
-- Reconciling a Shower's objects again: its accounts, roles, bindings, services and monitors.
pub mod Again
use meteor_operator.Prelude.{
  String, ◌≡◌, refl, sym, ap, ◌∙◌, Bool, true, false, not, ◌&&◌, ◌||◌, Option, none, some, List, [],
  ◌∷◌, ◌==◌, StringMap, eq_refl, Bool-cases, inl, inr, if◌then◌else◌, length, lookup,
}
use meteor_operator.Kube.Meta.{key_of, NamespacedName, ObjectMeta, TypeMeta, named}
use meteor_operator.Kube.Client.{Resource}
use meteor_operator.Kube.Library.{Library, KeepsKey}
use meteor_operator.Kube.Store.{IsStore}
use meteor_operator.Api.Shower.{Shower}
use meteor_operator.Meteor.Owner.{selector_key}
use meteor_operator.Shower.Objects.{
  ServiceAccount, PolicyRule, Role, Subject, RoleRef, RoleBinding, ServicePort, Service, Endpoint,
  ServiceMonitor, equal_lists, equal_rules, equal_subjects, equal_role_refs, equal_ports,
  equal_endpoints, equal_pairs, equal_maps,
}
use meteor_operator.Shower.Ensure.{Ensured, kept, error_of, ensure}
use meteor_operator.Shower.Ensure.Again.{Converges, by_test, EndsSettled, ensure-EndsSettled}
use meteor_operator.Shower.Desired.{
  Groups, shower_name, get_selector, change_role, change_binding, change_service, change_monitor,
  service_ports, endpoints,
}
use meteor_operator.Shower.Actions.{
  Api, Turn, turn, key, owned_meta, ensure_role, ensure_binding, ensure_service_account,
  ensure_service, ensure_service_monitor,
}
use meteor_operator.Shower.Actions.Laws.{equal_lists_refl, equal_rules_refl}

pub equal_subjects_refl : (a : Subject) → equal_subjects a a ≡ true
equal_subjects_refl a =
    rw (eq_refl a.kind, eq_refl a.api_group, eq_refl a.name, eq_refl a.namespace) refl

pub equal_role_refs_refl : (a : RoleRef) → equal_role_refs a a ≡ true
equal_role_refs_refl a = rw (eq_refl a.api_group, eq_refl a.kind, eq_refl a.name) refl

pub get_selector_refl : (name : String) → equal_maps (get_selector name) (get_selector name) ≡ true
get_selector_refl name = rw (eq_refl name) refl

module _ {W : Type 0} (lib : Library) (keeps : KeepsKey lib) (groups : Groups) (api : Api W)
    (s : Shower) where
  owned-key :
      (name namespace : String)
      → key_of (owned_meta lib groups api s name namespace) ≡ key name namespace
  owned-key name namespace = keeps s.type_meta s.meta (named name namespace)

  role-Converges :
      (name namespace : String) (rules : List PolicyRule)
      → Converges
          (λ (x : Role). key_of x.meta)
          (λ (x : Role). x.rules)
          (key name namespace)
          (record { meta = owned_meta lib groups api s name namespace; rules = rules })
          (change_role rules)
  unfolding change_role
  role-Converges name namespace rules =
      let now = ap not (equal_lists_refl equal_rules rules equal_rules_refl) in
      by_test (λ r. not (equal_lists equal_rules r rules)) (λ x. record x { rules = rules })
        (owned-key name namespace) now (λ x. refl) (λ x. now) (λ x. refl)

  binding-Converges :
      (name namespace : String) (subjects : List Subject) (ref : RoleRef)
      → Converges {S = List Subject × RoleRef}
          (λ (x : RoleBinding). key_of x.meta)
          (λ (x : RoleBinding). (x.subjects, x.role_ref))
          (key name namespace)
          (record {
            meta = owned_meta lib groups api s name namespace;
            subjects = subjects;
            role_ref = ref;
          })
          (change_binding subjects ref)
  unfolding change_binding
  binding-Converges name namespace subjects ref =
      let now : (not (equal_lists equal_subjects subjects subjects)
            || not (equal_role_refs ref ref))
          ≡ false =
        rw (equal_lists_refl equal_subjects subjects equal_subjects_refl, equal_role_refs_refl ref)
          refl in
      by_test
        (λ (p : List Subject × RoleRef).
          not (equal_lists equal_subjects p.0 subjects) || not (equal_role_refs p.1 ref))
        (λ x. record x { subjects = subjects; role_ref = ref }) (owned-key name namespace) now
        (λ x. refl) (λ x. now) (λ x. refl)

  service-Converges :
      (name namespace : String)
      → Converges {S = StringMap × String × List ServicePort}
          (λ (x : Service). key_of x.meta)
          (λ (x : Service). (x.selector, x.type, x.ports))
          (key name namespace)
          (record {
            meta = owned_meta lib groups api s name namespace;
            selector = get_selector name;
            type = "ClusterIP";
            ports = service_ports;
          })
          (change_service name)
  unfolding change_service
  service-Converges name namespace =
      by_test
        (λ (p : StringMap × String × List ServicePort).
          not (equal_maps p.0 (get_selector name))
          || not (p.1 == "ClusterIP")
          || not (equal_lists equal_ports p.2 service_ports))
        (λ x. record x { selector = get_selector name; type = "ClusterIP"; ports = service_ports })
        (owned-key name namespace) (rw (get_selector_refl name) refl) (λ x. refl)
        (λ x. rw (get_selector_refl name) refl) (λ x. refl)

  monitor-Converges :
      (name namespace : String)
      → Converges {S = StringMap × List Endpoint × List (String × String)}
          (λ (x : ServiceMonitor). key_of x.meta)
          (λ (x : ServiceMonitor). (x.selector, x.endpoints, x.other))
          (key name namespace)
          (record {
            meta = owned_meta lib groups api s name namespace;
            selector = get_selector name;
            endpoints = endpoints;
            other = [];
          })
          (change_monitor name)
  unfolding change_monitor
  monitor-Converges name namespace =
      by_test
        (λ (p : StringMap × List Endpoint × List (String × String)). not (
          equal_maps p.0 (get_selector name)
          && equal_lists equal_endpoints p.1 endpoints
          && equal_lists equal_pairs p.2 []))
        (λ x. record x { selector = get_selector name; endpoints = endpoints; other = [] })
        (owned-key name namespace) (rw (get_selector_refl name) refl) (λ x. refl)
        (λ x. rw (get_selector_refl name) refl) (λ x. refl)

  account-Converges :
      (name namespace : String)
      → Converges {S = Unit}
          (λ (x : ServiceAccount). key_of x.meta)
          (λ _. tt)
          (key name namespace)
          (record { meta = owned_meta lib groups api s name namespace })
          (λ _. none)
  account-Converges name namespace =
      by_test (λ _. false) (λ x. x) (owned-key name namespace) refl (λ x. refl) (λ x. refl)
        (λ x. refl)

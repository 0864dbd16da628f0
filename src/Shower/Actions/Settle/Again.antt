-- ===== src/Shower/Actions/Settle/Again.antt =====
-- Five of the reconcilers of controllers/shower, run again after they have succeeded.
use meteor_operator.Prelude.{
  String, ◌≡◌, ap, ◌⊎◌, inl, inr, Option-cases, Option, none, some, List, StringMap,
}
use meteor_operator.Kube.Meta.{key_of, NamespacedName}
use meteor_operator.Kube.Client.{Error, Resource}
use meteor_operator.Kube.Library.{Library, KeepsKey}
use meteor_operator.Kube.Store.{IsStore}
use meteor_operator.Api.Shower.{Shower}
use meteor_operator.Shower.Objects.{PolicyRule, Subject, RoleRef, ServicePort, Endpoint}
use meteor_operator.Shower.Ensure.{ensure, error_of}
use meteor_operator.Shower.Ensure.Again.{Converges, ensure-EndsSettled}
use meteor_operator.Shower.Desired.{Groups, shower_name}
use meteor_operator.Shower.Actions.{
  Api, Turn, turn, ensure_role, ensure_binding, ensure_service_account, ensure_service,
  ensure_service_monitor,
}
use meteor_operator.Shower.Actions.Settle.{
  role-Converges, binding-Converges, service-Converges, monitor-Converges, account-Converges,
}

-- The API server stores the five kinds, with the parts that the reconcilers compare.
pub record AreStores {W : Type 0} (api : Api W) : Type 0 where
  pub accounts : IsStore {S = Unit} api.service_accounts (λ x. key_of x.meta) (λ _. tt)
  pub roles : IsStore api.roles (λ x. key_of x.meta) (λ x. x.rules)
  pub bindings :
      IsStore {S = List Subject × RoleRef} api.role_bindings
        (λ x. key_of x.meta)
        (λ x. (x.subjects, x.role_ref))
  pub services :
      IsStore {S = StringMap × String × List ServicePort} api.services
        (λ x. key_of x.meta)
        (λ x. (x.selector, x.type, x.ports))
  pub monitors :
      IsStore {S = StringMap × List Endpoint × List (String × String)} api.service_monitors
        (λ x. key_of x.meta)
        (λ x. (x.selector, x.endpoints, x.other))

-- The reconciler ends with an error, or running it again gives none and changes neither the Shower
-- nor the cluster.
abbrev pub Settles : {W : Type 0} → (Shower → W → Turn W) → Shower → W → Type 0
Settles action s w =
    ((e : Error) × ((action s w).error ≡ some e))
    ⊎ (action s (action s w).world
        ≡ record { error = none; shower = s; world = (action s w).world })

ensure-Settles :
    {W T S : Type 0} (R : Resource W T) {key_of : T → NamespacedName} {spec : T → S}
    (k : NamespacedName) (fresh : T) (change : T → Option T) (s : Shower) (w : W)
    → IsStore R key_of spec
    → Converges key_of spec k fresh change
    → Settles (λ s w. turn s (ensure R k fresh change w)) s w
ensure-Settles R k fresh change s w store C =
    elim (Option-cases (error_of (ensure R k fresh change w).0)) [
      | inr failed ↦ inl failed
      | inl n ↦
          let (x, again) = ensure-EndsSettled R k fresh change store C w n in
          inr (ap (turn s) again)
    ]

module _ {W : Type 0} (lib : Library) (groups : Groups) (api : Api W) where
  -- For every Shower and every cluster whose API server stores what it is given: when the reconciler
  -- of the service account, of a Role, of a RoleBinding, of the Service or of the ServiceMonitor does
  -- not end with an error, running it again gives no error either and leaves the Shower and the cluster as
  -- they are.
  pub reconcilers_settle :
      KeepsKey lib
      → AreStores api
      → (s : Shower) (w : W) (name namespace : String) (rules : List PolicyRule)
        (subjects : List Subject) (ref : RoleRef)
      → Settles (ensure_service_account lib groups api namespace) s w
        × Settles (ensure_role lib groups api name namespace rules) s w
        × Settles (ensure_binding lib groups api name namespace subjects ref) s w
        × Settles (ensure_service lib groups api namespace) s w
        × Settles (ensure_service_monitor lib groups api namespace) s w
  reconcilers_settle keeps stores s w name namespace rules subjects ref = (
    ensure-Settles api.service_accounts _ _ _ s w stores.accounts
        (account-Converges lib keeps groups api s (shower_name s) namespace),
    ensure-Settles api.roles _ _ _ s w stores.roles
        (role-Converges lib keeps groups api s name namespace rules),
    ensure-Settles api.role_bindings _ _ _ s w stores.bindings
        (binding-Converges lib keeps groups api s name namespace subjects ref),
    ensure-Settles api.services _ _ _ s w stores.services
        (service-Converges lib keeps groups api s (shower_name s) namespace),
    ensure-Settles api.service_monitors _ _ _ s w stores.monitors
        (monitor-Converges lib keeps groups api s (shower_name s) namespace),
  )

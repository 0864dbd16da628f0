-- ===== src/Shower/RoleTests.antt =====
-- A reconciliation of a Shower against a cluster that stores Roles and RoleBindings.
use meteor_operator.Prelude.{
  refl, ap, ◌≡◌, Option, map, sprintf, List, [], ◌∷◌, All, Bool-cases, inl, inr,
}
use meteor_operator.Kube.Meta.{NamespacedName, ObjectMeta, key_of}
use meteor_operator.Kube.Client.{
  Result, ok, err, Resource, Ends, Outcome, done, panic, Requeue, Error,
}
use meteor_operator.Kube.Doubles.{plain_library, nothing, constant}
use meteor_operator.Kube.Store.{
  same_key, replace, create_if, update_if, find, store, store-IsStore, Part, over,
}
use meteor_operator.Api.Shower.{Shower}
use meteor_operator.Meteor.Samples.{shower}
use meteor_operator.Shower.Objects.{
  ServiceAccount, Role, RoleBinding, Service, ServiceMonitor, Deployment, Route,
}
use meteor_operator.Shower.Ensure.Writes.{Keeps}
use meteor_operator.Shower.Desired.{Groups, shower_name, pipeline_name, external_name}
use meteor_operator.Shower.Ensure.{ensure}
use meteor_operator.Shower.Route.{ensure_route, after_get_route}
use meteor_operator.Shower.Actions.{Api, note_deployment, note_route}
use meteor_operator.Shower.Reconcile.{reconcile, run_actions, refresh_status}
use meteor_operator.Shower.Actions.Confined.{
  externals_of, IsGrantOf, IsAccessOf, AnswersInPlace, Undisturbed,
}
use meteor_operator.Shower.Reconcile.Confined.{reconcile-confined}

abbrev groups : Groups
groups = record {
  tekton = "tekton.dev";
  image = "image.openshift.io";
  route = "route.openshift.io";
  apps = "apps";
  rbac = "rbac.authorization.k8s.io";
}

abbrev one : Shower
one = record (shower "one") {
  spec = record (shower "one").spec {
    external_services = record { name = "thoth"; namespace = "thoth-prod"; url = "" } ∷ [];
  };
}

abbrev request : NamespacedName
request = record { name = "one"; namespace = "default" }

record Cluster : Type 0 where
  roles : List Role
  bindings : List RoleBinding

abbrev empty : Cluster
empty = record { roles = []; bindings = [] }

abbrev roles_part : Part Cluster (List Role)
roles_part = record {
  view = λ w. w.roles;
  put = λ w v. record w { roles = v };
  view-put = λ w v. refl;
  put-view = λ w. refl;
}

abbrev bindings_part : Part Cluster (List RoleBinding)
bindings_part = record {
  view = λ w. w.bindings;
  put = λ w v. record w { bindings = v };
  view-put = λ w v. refl;
  put-view = λ w. refl;
}

abbrev key_of_role : Role → NamespacedName
key_of_role x = key_of x.meta

abbrev key_of_binding : RoleBinding → NamespacedName
key_of_binding x = key_of x.meta

-- A kind whose objects are accepted, and not tracked.
abbrev accepting : (T : Type 0) → Resource Cluster T
accepting T = record (nothing T) { create = λ x w. (ok x, w) }

abbrev api : Api Cluster
api = record {
  showers = constant Shower one;
  service_accounts = accepting ServiceAccount;
  roles = over roles_part (store key_of_role);
  role_bindings = over bindings_part (store key_of_binding);
  deployments = accepting Deployment;
  services = accepting Service;
  service_monitors = accepting ServiceMonitor;
  routes = accepting Route;
}

module _ {T : Type 0} (key : T → NamespacedName) (G : T → Type 0) where
  created-All :
      (r : Result T) (x : T) (xs : List T) → G x → All G xs → All G (create_if key r x xs).1
  created-All (ok _) x xs g p = p
  created-All (err _) x xs g p = (g, p)

  replace-All : (x : T) (xs : List T) → G x → All G xs → All G (replace key x xs)
  replace-All x [] g p = tt
  replace-All x (y ∷ ys) g (h, p) = elim (Bool-cases (same_key (key y) (key x))) [
    | inl e ↦ rw e (g, p)
    | inr e ↦ rw e (h, replace-All x ys g p)
  ]

  updated-All :
      (r : Result T) (x : T) (xs : List T) → G x → All G xs → All G (update_if key r x xs).1
  updated-All (ok _) x xs g p = replace-All x xs g p
  updated-All (err _) x xs g p = p

  store-Keeps : Keeps (All G) G (store key)
  store-Keeps = record {
    get = λ k w p. p;
    create = λ x w g p. created-All (find key (key x) w) x w g p;
    update = λ x w g p. updated-All (find key (key x) w) x w g p;
  }

abbrev IsGrant : Role → Type 0
IsGrant = IsGrantOf groups "default" (externals_of one)

abbrev IsAccess : RoleBinding → Type 0
IsAccess = IsAccessOf "default" (externals_of one)

-- All the Roles and the RoleBindings of the cluster are of the permitted form.
abbrev OnlyPermitted : Cluster → Type 0
OnlyPermitted w = All IsGrant w.roles × All IsAccess w.bindings

accepting-Keeps : {T : Type 0} → Keeps OnlyPermitted (λ _. Unit) (accepting T)
accepting-Keeps = record { get = λ k w p. p; create = λ x w _ p. p; update = λ x w _ p. p }

roles-Keeps : Keeps OnlyPermitted IsGrant (over roles_part (store key_of_role))
roles-Keeps = record {
  get = λ k w p. p;
  create = λ x w g p. ((store-Keeps key_of_role IsGrant).create x w.roles g p.0, p.1);
  update = λ x w g p. ((store-Keeps key_of_role IsGrant).update x w.roles g p.0, p.1);
}

bindings-Keeps : Keeps OnlyPermitted IsAccess (over bindings_part (store key_of_binding))
bindings-Keeps = record {
  get = λ k w p. p;
  create = λ x w g p. (p.0, (store-Keeps key_of_binding IsAccess).create x w.bindings g p.1);
  update = λ x w g p. (p.0, (store-Keeps key_of_binding IsAccess).update x w.bindings g p.1);
}

undisturbed : Undisturbed OnlyPermitted api
undisturbed = record {
  shower_get = λ k w p. p;
  shower_update = λ s w p. p;
  accounts = accepting-Keeps;
  deployments = accepting-Keeps;
  services = accepting-Keeps;
  monitors = accepting-Keeps;
  routes = accepting-Keeps;
}

stored_in_place :
    {V T : Type 0} (P : Part V (List T)) (meta_of : T → ObjectMeta)
    → AnswersInPlace meta_of (over P (store (λ x. key_of (meta_of x))))
stored_in_place P meta_of k w x got =
    ap (λ k. k.namespace)
      ((store-IsStore (λ x. key_of (meta_of x)) (λ x. x)).get-key k x (P.view w) (P.view w)
        (ap (λ r. (r, P.view w)) got))

reconcile-confined_example :
    Ends (λ x. OnlyPermitted x.1) (reconcile plain_library groups api request empty)
reconcile-confined_example =
    reconcile-confined plain_library groups api OnlyPermitted request empty empty one
      (λ kind owner controlled. refl) (stored_in_place roles_part (λ x. x.meta))
      (stored_in_place bindings_part (λ x. x.meta)) roles-Keeps bindings-Keeps undisturbed refl
      (tt, tt)

abbrev written : Outcome ((Requeue × Option Error) × Cluster) → List NamespacedName
written (done (_, w)) = map key_of_role w.roles
written panic = []

three_roles :
    written (reconcile plain_library groups api request empty)
    ≡ record { name = "meteor-external-default-one"; namespace = "thoth-prod" }
      ∷ record { name = "meteor-pipeline-one"; namespace = "default" }
      ∷ record { name = "meteor-shower-one"; namespace = "default" }
      ∷ []
unfolding reconcile refresh_status run_actions ensure ensure_route after_get_route shower_name
    pipeline_name external_name note_deployment note_route sprintf
three_roles = refl

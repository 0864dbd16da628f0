-- ===== src/Shower/Tasks/Cluster/Lists.antt =====
-- A cluster that holds the objects of a Shower in lists.
use meteor_operator.Prelude.{◌≡◌, refl, List, []}
use meteor_operator.Kube.Client.{Result, ok, err, Resource}
use meteor_operator.Kube.Doubles.{constant}
use meteor_operator.Kube.Store.{find, store, Part, over}
use meteor_operator.Api.Shower.{Shower}
use meteor_operator.Shower.Objects.{
  ServiceAccount, Role, RoleBinding, Deployment, Service, ServiceMonitor, Route,
}
use meteor_operator.Shower.Actions.{Api}
use meteor_operator.Shower.Tasks.{Kind, Object, place_of}
use meteor_operator.Shower.Tasks.Cluster.{fill}

pub record World : Type 0 where
  pub accounts : List ServiceAccount
  pub roles : List Role
  pub bindings : List RoleBinding
  pub deployments : List Deployment
  pub services : List Service
  pub monitors : List ServiceMonitor
  pub routes : List Route

abbrev pub view : (K : Kind) → World → List (Object K)
view Kind.accounts w = w.accounts
view Kind.roles w = w.roles
view Kind.bindings w = w.bindings
view Kind.deployments w = w.deployments
view Kind.services w = w.services
view Kind.monitors w = w.monitors
view Kind.routes w = w.routes

abbrev pub put : (K : Kind) → World → List (Object K) → World
put Kind.accounts w v = record w { accounts = v }
put Kind.roles w v = record w { roles = v }
put Kind.bindings w v = record w { bindings = v }
put Kind.deployments w v = record w { deployments = v }
put Kind.services w v = record w { services = v }
put Kind.monitors w v = record w { monitors = v }
put Kind.routes w v = record w { routes = v }

pub view-put : (K : Kind) (w : World) (v : List (Object K)) → view K (put K w v) ≡ v
view-put Kind.accounts w v = refl
view-put Kind.roles w v = refl
view-put Kind.bindings w v = refl
view-put Kind.deployments w v = refl
view-put Kind.services w v = refl
view-put Kind.monitors w v = refl
view-put Kind.routes w v = refl

pub put-view : (K : Kind) (w : World) → put K w (view K w) ≡ w
put-view Kind.accounts w = refl
put-view Kind.roles w = refl
put-view Kind.bindings w = refl
put-view Kind.deployments w = refl
put-view Kind.services w = refl
put-view Kind.monitors w = refl
put-view Kind.routes w = refl

abbrev pub part : (K : Kind) → Part World (List (Object K))
part K = record { view = view K; put = put K; view-put = view-put K; put-view = put-view K }

abbrev pub stored : (K : Kind) → Resource World (Object K)
stored K = over (part K) (store (place_of K))

-- What a new object is stored as: a Route without a host gets one.
abbrev pub made : (K : Kind) → Object K → Object K
made Kind.routes x = fill Kind.routes (record x { host = "shower.example" }) x
made Kind.accounts x = x
made Kind.roles x = x
made Kind.bindings x = x
made Kind.deployments x = x
made Kind.services x = x
made Kind.monitors x = x

-- What an object is updated to.
abbrev pub revised : (K : Kind) → Result (Object K) → Object K → Object K
revised K (ok old) x = fill K old x
revised K (err _) x = made K x

abbrev pub served : (K : Kind) → Resource World (Object K)
served K = record (stored K) {
  create = λ x w. (stored K).create (made K x) w;
  update = λ x w. (stored K).update (revised K (find (place_of K) (place_of K x) (view K w)) x) w;
}

-- The cluster holds the Shower `s`, whatever status is written.
abbrev pub api_of : Shower → Api World
api_of s = record {
  showers = constant Shower s;
  service_accounts = served Kind.accounts;
  roles = served Kind.roles;
  role_bindings = served Kind.bindings;
  deployments = served Kind.deployments;
  services = served Kind.services;
  service_monitors = served Kind.monitors;
  routes = served Kind.routes;
}

abbrev pub empty : World
empty = record {
  accounts = [];
  roles = [];
  bindings = [];
  deployments = [];
  services = [];
  monitors = [];
  routes = [];
}

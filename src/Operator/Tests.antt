-- ===== src/Operator/Tests.antt =====
-- The three controllers on a cluster that stores PipelineRuns.
use mathlib.Core.Path.{subst}
use meteor_operator.Prelude.{
  ◌≡◌, ◌⊎◌, refl, sym, ap, ◌∙◌, Bool, true, false, List, [], ◌∷◌, inl, inr, if◌then◌else◌,
}
use meteor_operator.Kube.Meta.{NamespacedName, key_of}
use meteor_operator.Kube.Client.{Result, ok, err, ok-injective, done}
use meteor_operator.Kube.Doubles.{
  plain_library, keyed_ops-AreConditionOps, missing_object, constant, nothing,
}
use meteor_operator.Kube.Store.{same_key, same_key-eq, find, create_if, store, store-IsStore}
use meteor_operator.Tekton.{PipelineRun}
use meteor_operator.Api.Common.{running}
use meteor_operator.Api.Cre.{CustomRuntimeEnvironment}
use meteor_operator.Api.Cre.Samples.{packages}
use meteor_operator.Api.Meteor.{Meteor}
use meteor_operator.Api.Shower.{Shower}
use meteor_operator.Api.Coma.{Coma}
use meteor_operator.Shower.Objects.{
  ServiceAccount, Role, RoleBinding, Service, ServiceMonitor, Deployment, Route,
}
use meteor_operator.Shower.Ensure.Writes.{Keeps}
use meteor_operator.Meteor.Samples.{plain, shower, coma, json}
use meteor_operator.Cre.Samples.{eq}
use meteor_operator.Cre.Reconcile.{submitted, refresh, run_key}
use meteor_operator.Cre.Reconcile.Branches.{Reports, refresh-created}
use meteor_operator.Cre.Reconcile.Once.{submitted-key}
use meteor_operator.Cre.Reconcile.Confined.{IsRunOf, reconcile_found}
use meteor_operator.Operator.{Setup, Process, new_reconciler, Reaches, start, cre, restart, edit}
use meteor_operator.Operator.Life.{Serves, Allows, Reaches-keeps}
use meteor_operator.Operator.Ownership.{IsKnown, ServesKnown, IsNamesake, Reaches-found}

abbrev World : Type 0
World = List PipelineRun

abbrev key : PipelineRun → NamespacedName
key run = key_of run.meta

abbrev setup : Setup World
setup = record {
  library = plain_library;
  json = json;
  groups = record {
    tekton = "tekton.dev";
    image = "image.openshift.io";
    route = "route.openshift.io";
    apps = "apps";
    rbac = "rbac.authorization.k8s.io";
  };
  deep_equal = eq;
  meteors = record {
    meteors = constant Meteor plain;
    showers = constant Shower (shower "one");
    comas = constant Coma coma;
    pipeline_runs = store key;
  };
  showers = record {
    showers = constant Shower (shower "one");
    service_accounts = nothing ServiceAccount;
    roles = nothing Role;
    role_bindings = nothing RoleBinding;
    deployments = nothing Deployment;
    services = nothing Service;
    service_monitors = nothing ServiceMonitor;
    routes = nothing Route;
  };
  cres = record { cres = constant CustomRuntimeEnvironment packages; pipeline_runs = store key };
}

serves : Serves setup
serves = record {
  keeps_key = λ kind owner controlled. refl;
  meteors_named = record {
    update-name =
        λ m m' w w' h. ap (λ (x : Meteor). x.meta.name) (sym (ok-injective (ap (λ p. p.0) h)));
    status-name =
        λ m m' w w' h. ap (λ (x : Meteor). x.meta.name) (sym (ok-injective (ap (λ p. p.0) h)));
  };
  roles_in_place = λ k w x got. cc;
  bindings_in_place = λ k w x got. cc;
}

-- All runs are collected.
abbrev Emptied : World → World → Type 0
Emptied w w' = w' ≡ []

empty-ServesKnown : ServesKnown setup []
empty-ServesKnown k run w' got = cc (ap (λ p. p.0) got)

cons-found :
    (k : NamespacedName) (x run : PipelineRun) (w : World) (b : Bool)
    → IsKnown x
    → ServesKnown setup w
    → same_key (key x) k ≡ b
    → (if b then ok x else find key k w) ≡ ok run
    → (key run ≡ k) × IsKnown run
cons-found k x run w true is known s h =
    (ap key (sym (ok-injective h)) ∙ same_key-eq (key x) k s, subst IsKnown (ok-injective h) is)
cons-found k x run w false is known s h = known k run w (ap (λ r. (r, w)) h)

created-ServesKnown :
    (r : Result PipelineRun) (x : PipelineRun) (w : World)
    → IsKnown x
    → ServesKnown setup w
    → ServesKnown setup (create_if key r x w).1
created-ServesKnown (ok _) x w is known = known
created-ServesKnown (err _) x w is known =
    λ k run w' got. cons-found k x run w (same_key (key x) k) is known refl (ap (λ p. p.0) got)

nothing-Keeps :
    {T : Type 0} (may_write : T → Type 0) → Keeps (ServesKnown setup) may_write (nothing T)
nothing-Keeps may_write = record { get = λ k w p. p; create = λ x w _ p. p; update = λ x w _ p. p }

allows : Allows (ServesKnown setup) setup Emptied
allows = record {
  meteor_get = λ k w p. p;
  meteors = λ owner namespace. record {
    meteor_update = λ m w n p. p;
    meteor_status = λ m w n p. p;
    meteor_delete = λ m w n p. p;
    shower_list = λ w p. p;
    coma_get = λ k w p. p;
    coma_create = λ x w is p. p;
    coma_status = λ x w p. p;
    coma_delete = λ x w p. p;
    run_get = λ k w p. p;
    run_create =
        λ x w is p. created-ServesKnown (find key (key x) w) x w (inl (owner, namespace, is)) p;
  };
  roles = λ home externals. nothing-Keeps _;
  bindings = λ home externals. nothing-Keeps _;
  showers = record {
    shower_get = λ k w p. p;
    shower_update = λ s w p. p;
    accounts = nothing-Keeps _;
    deployments = nothing-Keeps _;
    services = nothing-Keeps _;
    monitors = nothing-Keeps _;
    routes = nothing-Keeps _;
  };
  cres = record {
    cre_get = λ k w p. p;
    cre_status = λ x w p. p;
    run_get = λ k w p. p;
    run_create = λ c x w is p. created-ServesKnown (find key (key x) w) x w (inr (c, is)) p;
  };
  edited = λ w w' e p. subst (ServesKnown setup) (sym e) empty-ServesKnown;
}

abbrev made : PipelineRun
made = submitted plain_library setup.cres packages

abbrev at : World → Process World
at w = record { reconciler = new_reconciler plain; world = w }

begun :
    (c : CustomRuntimeEnvironment) × (refresh plain_library setup.cres eq packages []
      ≡ done (c, made ∷ []))
    × Reports c running
begun =
    refresh-created plain_library setup.cres keyed_ops-AreConditionOps eq packages [] [] (made ∷ [])
      missing_object made tt refl refl refl refl refl

abbrev request : NamespacedName
request = record { name = packages.meta.name; namespace = packages.meta.namespace }

-- The process starts again, the runs are collected, and the resource is reconciled.
reached : Reaches setup Emptied (at []) (at (made ∷ []))
reached = cre request (edit (restart plain start) refl) (
    reconcile_found plain_library (λ kind owner controlled. refl) setup.cres eq (ServesKnown setup)
      allows.cres request packages begun.0 [] [] (made ∷ []) refl refl begun.1)

Reaches-keeps_example : ServesKnown setup (made ∷ [])
Reaches-keeps_example =
    Reaches-keeps setup Emptied serves (ServesKnown setup) allows reached empty-ServesKnown

stored : setup.cres.pipeline_runs.get (run_key packages) (made ∷ []) ≡ (ok made, made ∷ [])
stored =
    let is_store = store-IsStore key (λ r. r.spec) in
    subst (λ k. setup.cres.pipeline_runs.get k (made ∷ []) ≡ (ok made, made ∷ []))
      (submitted-key plain_library setup.cres eq (λ kind owner controlled. refl) is_store packages)
      (is_store.create-get made made [] (made ∷ []) refl)

Reaches-found_example : IsRunOf packages made ⊎ IsNamesake packages made
Reaches-found_example =
    Reaches-found setup Emptied serves allows packages made (made ∷ []) reached empty-ServesKnown
      stored

-- ===== src/Startup/Tests.antt =====
-- Starts of the operator with a stand-in for controller-runtime: the theorems about them.
use meteor_operator.Prelude.{
  String, ◌≡◌, ◌≢◌, refl, sym, ap, ◌∙◌, Bool, true, false, ◌&&◌, ◌||◌, Option, none, some, List, [],
  ◌∷◌, ◌++◌, ◌==◌, arith, All,
}
use meteor_operator.Kube.Client.{Error, ok, ok-injective, done}
use meteor_operator.Kube.Doubles.{refusal}
use meteor_operator.Startup.Config.{MeteorConfig, initial_config, complete}
use meteor_operator.Startup.Scheme.{
  Group, client_go, meteor, pipeline, route, monitoring, same_group, Registry, RegistryLaws, init,
}
use meteor_operator.Startup.Setup.{
  Kind, group_of, Options, View, fresh_view, Runtime, setup_meteor, setup_shower, setup_cre,
  setup_webhook,
}
use meteor_operator.Startup.Main.{
  going, exited, default_options, load, new_manager, set_up, serve, main, process,
}
use meteor_operator.Startup.Main.Views.{RuntimeLaws, planned}
use meteor_operator.Startup.Main.Laws.{Serves, main-Serves}
use meteor_operator.Startup.Main.Serving.{Succeeds, main-serves}
use meteor_operator.Startup.Main.Showers.{init-knows, process-without_showers}

abbrev knows : List Group → Group → Bool
knows [] h = false
knows (g ∷ gs) h = same_group g h || knows gs h

abbrev registry : Registry (List Group)
registry = record { new_scheme = []; add_to_scheme = λ g s. (none, g ∷ s); knows = knows }

registry_laws : RegistryLaws registry
registry_laws = record {
  new-knows = λ g. refl;
  add-knows = λ g h s s' e. sym (ap (λ x. knows x.1 h) e);
}

-- The settings of the manager: an address for the metrics, if any.
abbrev Settings : Type 0
Settings = Option String

abbrev silent : Settings
silent = none

abbrev merge : Options (List Group) → Settings → Options (List Group)
merge o none = o
merge o (some address) = record o { metrics_bind_address = address }

-- Every file sets the address, and one file enables Showers.
abbrev read : String → MeteorConfig Settings → MeteorConfig Settings
read path c = record c {
  spec = record c.spec { manager = some ":9090"; enable_shower = path == "showers.yaml" };
}

abbrev all_known : List Group → List Kind → Bool
all_known s [] = true
all_known s (k ∷ ks) = knows s (group_of k) && all_known s ks

abbrev start_if : Bool → Option Error
start_if true = none
start_if false = some refusal

abbrev runtime : Runtime (List Group) Settings (View (List Group))
runtime = record {
  and_from = λ f path o c. (merge o (f (read path c)).0, none, read path c);
  merge = merge;
  has_kubeconfig = true;
  new_manager = λ o. ok (fresh_view o.scheme);
  complete_controller = λ for owns m. (none, record m { watched = m.watched ++ for ∷ owns });
  complete_webhook = λ for m. (none, record m { webhooks = m.webhooks ++ for ∷ [] });
  add_healthz_check = λ name m. (none, record m { health_checks = m.health_checks ++ name ∷ [] });
  add_readyz_check = λ name m. (none, record m { ready_checks = m.ready_checks ++ name ∷ [] });
  start = λ m. start_if (all_known m.scheme m.watched);
  view = λ m. m;
}

start_if-eq-none : (b : Bool) → start_if b ≡ none → b ≡ true
start_if-eq-none true h = refl
start_if-eq-none false h = cc

all_known-All :
    (s : List Group) (ks : List Kind)
    → all_known s ks ≡ true
    → All (λ k. knows s (group_of k) ≡ true) ks
all_known-All s [] h = tt
all_known-All s (k ∷ ks) h = (ground arith, all_known-All s ks (ground arith))

runtime_laws : RuntimeLaws silent registry runtime
runtime_laws = record {
  from-merge = λ f path o o' c c' h. sym (ap (λ x. x.0) h) ∙ ap (λ x. merge o (f x.2).0) h;
  merge-empty = λ o. refl;
  new-view = λ o m h. sym (ok-injective h);
  controller-view = λ for owns m m' h. sym (ap (λ x. x.1) h);
  webhook-view = λ for m m' h. sym (ap (λ x. x.1) h);
  healthz-view = λ name m m' h. sym (ap (λ x. x.1) h);
  readyz-view = λ name m m' h. sym (ap (λ x. x.1) h);
  start-knows =
      λ m h. all_known-All m.scheme m.watched (start_if-eq-none (all_known m.scheme m.watched) h);
}

abbrev scheme : List Group
scheme = monitoring ∷ pipeline ∷ meteor ∷ client_go ∷ []

init_test : init registry (initial_config silent) ≡ done scheme
unfolding init
init_test = refl

init-knows_example : knows scheme route ≡ false
init-knows_example = init-knows registry registry_laws silent scheme route init_test

load_test :
    load runtime silent "other.yaml" (default_options scheme) (initial_config silent)
    ≡ going (default_options scheme, read "other.yaml" (initial_config silent))
unfolding load complete
load_test = refl

load_showers_test :
    load runtime silent "showers.yaml" (default_options scheme) (initial_config silent)
    ≡ going (default_options scheme, read "showers.yaml" (initial_config silent))
unfolding load complete
load_showers_test = refl

-- The Shower controller watches Routes, which the scheme does not know.
main_showers_test : main runtime silent scheme "showers.yaml" "" ≡ exited "problem running manager"
unfolding main load complete new_manager set_up serve setup_meteor setup_shower setup_cre
    setup_webhook
main_showers_test = refl

abbrev manager : View (List Group)
manager = planned false true scheme

main_test : main runtime silent scheme "" "true" ≡ going manager
unfolding main load complete new_manager set_up serve setup_meteor setup_shower setup_cre
    setup_webhook
main_test = refl

main-Serves_example : Serves silent registry runtime runtime_laws scheme "" "true" manager
main-Serves_example =
    main-Serves silent registry runtime runtime_laws scheme "" "true" manager main_test

process-without_showers_example :
    process runtime registry silent "showers.yaml" "true" ≢ done (going manager)
process-without_showers_example =
    process-without_showers silent registry registry_laws runtime runtime_laws "showers.yaml" "true"
      scheme (read "showers.yaml" (initial_config silent)) manager init_test load_showers_test refl

runtime-Succeeds : Succeeds runtime
runtime-Succeeds = record {
  kubeconfig = refl;
  manager = λ o. (fresh_view o.scheme, refl);
  controllers = λ for owns m. refl;
  webhooks = λ for m. refl;
  health = λ name m. refl;
  ready = λ name m. refl;
}

main-serves_example :
    (m : View (List Group)) × (main runtime silent scheme "other.yaml" "true" ≡ going m)
main-serves_example =
    main-serves silent registry runtime runtime_laws runtime-Succeeds scheme "other.yaml" "true"
      (default_options scheme) (read "other.yaml" (initial_config silent)) load_test
      (λ m e. ap (λ v. start_if (all_known v.scheme v.watched)) e)

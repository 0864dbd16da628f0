-- ===== src/Startup/Main/Views.antt =====
-- main.go, lines 100 to 146: what the manager is to run after each step of the set-up.
use meteor_operator.Prelude.{
  String, ◌≡◌, refl, sym, ap, ◌∙◌, Bool, true, false, not, Option, none, some, List, [], ◌∷◌, ◌++◌,
  ◌==◌, if◌then◌else◌, All,
}
use meteor_operator.Kube.Client.{Error, Result, ok, err}
use meteor_operator.Startup.Config.{MeteorConfig}
use meteor_operator.Startup.Scheme.{Registry}
use meteor_operator.Startup.Setup.{
  Kind, meteors, showers, custom_runtime_environments, pipeline_runs, deployments, services, routes,
  service_accounts, roles, role_bindings, group_of, Options, View, fresh_view, Runtime,
  setup_meteor, setup_shower, setup_cre, setup_webhook,
}
use meteor_operator.Startup.Main.{
  Run, going, exited, ◌>=>◌, or_exit, when, after_new_manager, new_manager, with_meteor,
  with_shower, with_cre, with_webhook, with_health, with_ready, set_up,
}

-- What controller-runtime documents of its calls that succeed. A manager whose controllers watch a
-- kind that its scheme does not know cannot start: their caches never fill. Settings that a
-- configuration leaves out are kept.
pub record RuntimeLaws {S C M : Type 0} (empty : C) (R : Registry S) (K : Runtime S C M)
    : Type 0 where
  pub from-merge :
      (complete : MeteorConfig C → C × Option Error) (path : String) (o o' : Options S)
      (c c' : MeteorConfig C)
      → K.and_from complete path o c ≡ (o', none, c')
      → o' ≡ K.merge o (complete c').0
  pub merge-empty : (o : Options S) → K.merge o empty ≡ o
  pub new-view : (o : Options S) (m : M) → K.new_manager o ≡ ok m → K.view m ≡ fresh_view o.scheme
  pub controller-view :
      (for : Kind) (owns : List Kind) (m m' : M)
      → K.complete_controller for owns m ≡ (none, m')
      → K.view m' ≡ record (K.view m) { watched = (K.view m).watched ++ for ∷ owns }
  pub webhook-view :
      (for : Kind) (m m' : M)
      → K.complete_webhook for m ≡ (none, m')
      → K.view m' ≡ record (K.view m) { webhooks = (K.view m).webhooks ++ for ∷ [] }
  pub healthz-view :
      (name : String) (m m' : M)
      → K.add_healthz_check name m ≡ (none, m')
      → K.view m' ≡ record (K.view m) { health_checks = (K.view m).health_checks ++ name ∷ [] }
  pub readyz-view :
      (name : String) (m m' : M)
      → K.add_readyz_check name m ≡ (none, m')
      → K.view m' ≡ record (K.view m) { ready_checks = (K.view m).ready_checks ++ name ∷ [] }
  pub start-knows :
      (m : M)
      → K.start m ≡ none
      → All (λ k. R.knows (K.view m).scheme (group_of k) ≡ true) (K.view m).watched

abbrev shower_kinds : Bool → List Kind
shower_kinds false = []
shower_kinds true =
    showers ∷ deployments ∷ services ∷ routes ∷ service_accounts ∷ roles ∷ role_bindings ∷ meteors
    ∷ []

-- What the operator is to run.
abbrev pub planned : {S : Type 0} → (enable_shower enable_webhooks : Bool) → S → View S
planned enable_shower enable_webhooks s = record {
  scheme = s;
  watched =
      meteors ∷ pipeline_runs ∷ shower_kinds enable_shower
      ++ custom_runtime_environments ∷ pipeline_runs ∷ meteors ∷ [];
  webhooks = if enable_webhooks then custom_runtime_environments ∷ [] else [];
  health_checks = "healthz" ∷ [];
  ready_checks = "readyz" ∷ [];
}

pub >=>-eq-going :
    {A B : Type 0} (r : Run A) (f : A → Run B) {b : B}
    → (r >=> f) ≡ going b
    → (a : A) × (r ≡ going a) × (f a ≡ going b)
>=>-eq-going (going a) f h = (a, refl, h)
>=>-eq-going (exited message) f h = cc

pub going-injective : {A : Type 0} {a b : A} → going a ≡ going b → a ≡ b
going-injective h = cc

if-eq-going :
    {A : Type 0} (b : Bool) (r : Run A) (message : String) {a : A}
    → (if b then r else exited message) ≡ going a
    → r ≡ going a
if-eq-going true r message h = h
if-eq-going false r message h = cc

pub or_exit-eq-going :
    {A : Type 0} (message : String) (answer : Option Error × A) {a : A}
    → or_exit message answer ≡ going a
    → answer ≡ (none, a)
or_exit-eq-going message (none, b) h = ap (λ x. (none, x)) (going-injective h)
or_exit-eq-going message (some _, b) h = cc

module _ {S : Type 0} where
  abbrev watch : (for : Kind) → (owns : List Kind) → View S → View S
  watch for owns v = record v { watched = v.watched ++ for ∷ owns }

  abbrev watch_showers : Bool → View S → View S
  watch_showers false v = v
  watch_showers true v =
      watch showers
        (deployments ∷ services ∷ routes ∷ service_accounts ∷ roles ∷ role_bindings ∷ meteors ∷ [])
        v

  abbrev hook : Bool → View S → View S
  hook false v = v
  hook true v = record v { webhooks = v.webhooks ++ custom_runtime_environments ∷ [] }

  abbrev health : View S → View S
  health v = record v { health_checks = v.health_checks ++ "healthz" ∷ [] }

  abbrev ready : View S → View S
  ready v = record v { ready_checks = v.ready_checks ++ "readyz" ∷ [] }

  -- The steps of the set-up, one after the other.
  abbrev steps : (enable_shower enable_webhooks : Bool) → View S → View S
  steps b e v = ready (
      health (
        hook e (
          watch custom_runtime_environments (pipeline_runs ∷ meteors ∷ [])
            (watch_showers b (watch meteors (pipeline_runs ∷ []) v)))))

  steps-planned : (b e : Bool) (s : S) → steps b e (fresh_view s) ≡ planned b e s
  steps-planned true true s = refl
  steps-planned true false s = refl
  steps-planned false true s = refl
  steps-planned false false s = refl

module _ {S C M : Type 0} (empty : C) (R : Registry S) (K : Runtime S C M)
    (L : RuntimeLaws empty R K) where
  after_new_manager-view :
      (o : Options S) (answer : Result M) (m : M)
      → K.new_manager o ≡ answer
      → after_new_manager answer ≡ going m
      → K.view m ≡ fresh_view o.scheme
  after_new_manager-view o (ok n) m e h = L.new-view o m (e ∙ ap ok (going-injective h))
  after_new_manager-view o (err _) m e h = cc

  new_manager-view :
      (o : Options S) (m : M) → new_manager K o ≡ going m → K.view m ≡ fresh_view o.scheme
  unfolding new_manager
  new_manager-view o m h =
      after_new_manager-view o (K.new_manager o) m refl
        (if-eq-going K.has_kubeconfig _ "unable to get kubeconfig" h)

  controller_step-view :
      (message : String) (for : Kind) (owns : List Kind) (m m' : M)
      → or_exit message (K.complete_controller for owns m) ≡ going m'
      → K.view m' ≡ watch for owns (K.view m)
  controller_step-view message for owns m m' h =
      L.controller-view for owns m m' (or_exit-eq-going message _ h)

  shower_step-view :
      (b : Bool) (m m' : M)
      → when b (with_shower K) m ≡ going m'
      → K.view m' ≡ watch_showers b (K.view m)
  unfolding setup_shower
  shower_step-view true m m' h = controller_step-view _ showers _ m m' h
  shower_step-view false m m' h = ap K.view (sym (going-injective h))

  webhook_step-view :
      (e : Bool) (m m' : M) → when e (with_webhook K) m ≡ going m' → K.view m' ≡ hook e (K.view m)
  unfolding setup_webhook
  webhook_step-view true m m' h =
      L.webhook-view custom_runtime_environments m m' (or_exit-eq-going _ _ h)
  webhook_step-view false m m' h = ap K.view (sym (going-injective h))

  set_up-view :
      (env : String) (config : MeteorConfig C) (m m' : M)
      → set_up K env config m ≡ going m'
      → K.view m' ≡ steps config.spec.enable_shower (not (env == "false")) (K.view m)
  unfolding set_up setup_meteor setup_cre
  set_up-view env config m m' h =
      let e = not (env == "false") in
      let b = config.spec.enable_shower in
      let (m5, h5, h6) = >=>-eq-going _ (with_ready K) h in
      let (m4, h4, h5') = >=>-eq-going _ (with_health K) h5 in
      let (m3, h3, h4') = >=>-eq-going _ (when e (with_webhook K)) h4 in
      let (m2, h2, h3') = >=>-eq-going _ (with_cre K) h3 in
      let (m1, h1, h2') = >=>-eq-going (with_meteor K m) (when b (with_shower K)) h2 in
      L.readyz-view "readyz" m5 m' (or_exit-eq-going _ _ h6)
      ∙ ap ready (
          L.healthz-view "healthz" m4 m5 (or_exit-eq-going _ _ h5')
          ∙ ap health (
              webhook_step-view e m3 m4 h4'
              ∙ ap (hook e) (
                  controller_step-view _ custom_runtime_environments _ m2 m3 h3'
                  ∙ ap (watch custom_runtime_environments (pipeline_runs ∷ meteors ∷ [])) (
                      shower_step-view b m1 m2 h2'
                      ∙ ap (watch_showers b) (controller_step-view _ meteors _ m m1 h1)))))

  pub managed-view :
      (env : String) (c : MeteorConfig C) (o : Options S) (m : M)
      → (new_manager K o >=> set_up K env c) ≡ going m
      → K.view m ≡ planned c.spec.enable_shower (not (env == "false")) o.scheme
  managed-view env c o m h =
      let (m1, h1, h') = >=>-eq-going (new_manager K o) (set_up K env c) h in
      let e = not (env == "false") in
      let b = c.spec.enable_shower in
      set_up-view env c m1 m h'
      ∙ ap (steps b e) (new_manager-view o m1 h1)
      ∙ steps-planned b e o.scheme

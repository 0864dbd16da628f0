-- ===== src/Startup/Main/Laws.antt =====
-- What a process that has served has set up, on what the documentation of controller-runtime says.
use meteor_operator.Prelude.{
  String, ◌≡◌, refl, sym, ap, ◌∙◌, Bool, true, false, not, Option, none, some, ◌==◌, if◌then◌else◌,
}
use meteor_operator.Kube.Client.{Error}
use meteor_operator.Startup.Config.{MeteorConfig, initial_config, complete}
use meteor_operator.Startup.Scheme.{Registry}
use meteor_operator.Startup.Setup.{Options, Runtime}
use meteor_operator.Startup.Main.Views.{
  RuntimeLaws, planned, >=>-eq-going, going-injective, or_exit-eq-going, managed-view,
}
use meteor_operator.Startup.Main.{
  going, default_options, load, after_load, serve, run_manager, main,
}

module _ {S C M : Type 0} (empty : C) (R : Registry S) (K : Runtime S C M)
    (L : RuntimeLaws empty R K) where
  after_load-eq-going :
      (path : String) (o o' : Options S) (c c' : MeteorConfig C)
      (answer : Options S × Option Error × MeteorConfig C)
      → K.and_from (complete empty) path o c ≡ answer
      → after_load answer ≡ going (o', c')
      → o' ≡ o
  unfolding complete
  after_load-eq-going path o o' c c' (o1, none, c1) e h =
      L.from-merge (complete empty) path o o' c c1
        (e ∙ ap (λ p. (p.0, none, c1)) (going-injective h))
      ∙ L.merge-empty o
  after_load-eq-going path o o' c c' (o1, some _, c1) e h = cc

  loaded_options :
      (b : Bool) (path : String) (o o' : Options S) (c c' : MeteorConfig C)
      → (if b then going (o, c) else after_load (K.and_from (complete empty) path o c))
        ≡ going (o', c')
      → o' ≡ o
  loaded_options true path o o' c c' h = ap (λ p. p.0) (sym (going-injective h))
  loaded_options false path o o' c c' h = after_load-eq-going path o o' c c' _ refl h

  -- Whatever the configuration file says of the manager, the options stay as they were.
  load-options :
      (path : String) (o o' : Options S) (c c' : MeteorConfig C)
      → load K empty path o c ≡ going (o', c')
      → o' ≡ o
  unfolding load
  load-options path = loaded_options (path == "") path

  -- The manager runs what was planned for a configuration.
  abbrev pub Serves : S → (path env : String) → M → Type 0
  Serves s path env m =
      (c : MeteorConfig C) × (load K empty path (default_options s) (initial_config empty)
        ≡ going (default_options s, c))
      × (K.start m ≡ none)
      × (K.view m ≡ planned c.spec.enable_shower (not (env == "false")) s)

  -- When `main` ends without a failure, a configuration was loaded that left the default options as
  -- they are, and the manager has run what is planned for it: the controllers of Meteors and of
  -- CustomRuntimeEnvironments, that of Showers if the configuration enables it, the webhook unless
  -- the variable is "false", and the two probes, with the scheme of `init`.
  pub main-Serves :
      (s : S) (path env : String) (m : M) → main K empty s path env ≡ going m → Serves s path env m
  unfolding main serve
  main-Serves s path env m h =
      let ((o, c), h0, h') =
        >=>-eq-going (load K empty path (default_options s) (initial_config empty))
          (run_manager K env) h in
      let (m2, h2, h3) = >=>-eq-going _ (serve K) h' in
      let started = or_exit-eq-going _ (K.start m2, m2) h3 in
      let same : m2 ≡ m = ap (λ x. x.1) started in
      let kept = load-options path (default_options s) o (initial_config empty) c h0 in
      (
        c,
        h0 ∙ ap (λ o. going (o, c)) kept,
        ap K.start (sym same) ∙ ap (λ x. x.0) started,
        ap K.view (sym same)
            ∙ managed-view empty R K L env c o m2 h2
            ∙ ap (λ o. planned c.spec.enable_shower (not (env == "false")) o.scheme) kept,
      )

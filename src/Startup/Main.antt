-- ===== src/Startup/Main.antt =====
-- main.go: `main`, which sets the manager up step by step and exits at the first step that fails.
pub mod Views
pub mod Laws
pub mod Showers
pub mod Serving
use meteor_operator.Prelude.{
  ℕ, String, Bool, true, false, not, Option, none, some, ◌==◌, if◌then◌else◌,
}
use meteor_operator.Kube.Client.{Error, Result, ok, err, Outcome, done, panic, ◌>>=◌}
use meteor_operator.Startup.Config.{MeteorConfig, initial_config, complete}
use meteor_operator.Startup.Scheme.{Registry, init}
use meteor_operator.Startup.Setup.{
  Options, Runtime, setup_meteor, setup_shower, setup_cre, setup_webhook,
}

-- A part of `main`: it goes on, or the process has exited with code 1 after a log entry.
pub data Run (A : Type 0) : Type 0 where
  going : A → Run A
  exited : (message : String) → Run A

infixl 5 ◌>=>◌
abbrev pub ◌>=>◌ : {A B : Type 0} → Run A → (A → Run B) → Run B
going a >=> f = f a
exited message >=> f = exited message

-- `if err = ...; err != nil { setupLog.Error(err, ...); os.Exit(1) }`
abbrev pub or_exit : {A : Type 0} → (message : String) → Option Error × A → Run A
or_exit message (none, a) = going a
or_exit message (some _, a) = exited message

abbrev pub when : {A : Type 0} → Bool → (A → Run A) → A → Run A
when true f a = f a
when false f a = going a

abbrev pub default_options : {S : Type 0} → S → Options S
default_options s = record {
  scheme = s;
  metrics_bind_address = "127.0.0.1:8080";
  port = 9443;
  health_probe_bind_address = ":8081";
  leader_election = true;
  leader_election_id = "05b1bff9.meteor.zone";
  leader_election_namespace = "aicoe-meteor";
}

abbrev pub after_load :
    {S C : Type 0} → Options S × Option Error × MeteorConfig C → Run (Options S × MeteorConfig C)
after_load (options, none, config) = going (options, config)
after_load (options, some _, config) = exited "unable to load the config file"

abbrev pub after_new_manager : {M : Type 0} → Result M → Run M
after_new_manager (ok m) = going m
after_new_manager (err _) = exited "unable to start manager"

module _ {S C M : Type 0} (K : Runtime S C M) where
  -- The command line's `config`, which may be empty.
  unfoldable pub load :
      (empty : C) (path : String) → Options S → MeteorConfig C → Run (Options S × MeteorConfig C)
  load empty path options config =
      if path == ""
      then going (options, config)
      else after_load (K.and_from (complete empty) path options config)

  -- `ctrl.GetConfigOrDie` exits by itself.
  unfoldable pub new_manager : Options S → Run M
  new_manager options =
      if K.has_kubeconfig
      then after_new_manager (K.new_manager options)
      else exited "unable to get kubeconfig"

  abbrev pub with_meteor : M → Run M
  with_meteor m = or_exit "unable to create controller Meteor" (setup_meteor K m)

  abbrev pub with_shower : M → Run M
  with_shower m = or_exit "unable to create controller Shower" (setup_shower K m)

  abbrev pub with_cre : M → Run M
  with_cre m = or_exit "unable to create controller CustomRuntimeEnvironment" (setup_cre K m)

  abbrev pub with_webhook : M → Run M
  with_webhook m = or_exit "unable to create webhook" (setup_webhook K m)

  abbrev pub with_health : M → Run M
  with_health m = or_exit "unable to set up health check" (K.add_healthz_check "healthz" m)

  abbrev pub with_ready : M → Run M
  with_ready m = or_exit "unable to set up ready check" (K.add_readyz_check "readyz" m)

  -- The controllers, the webhook and the probes.
  unfoldable pub set_up : (enable_webhooks : String) → MeteorConfig C → M → Run M
  set_up enable_webhooks config m =
      with_meteor m
      >=> when config.spec.enable_shower with_shower
      >=> with_cre
      >=> when (not (enable_webhooks == "false")) with_webhook
      >=> with_health
      >=> with_ready

  -- `mgr.Start` blocks; it returns without an error when the process is told to stop.
  unfoldable pub serve : M → Run M
  serve m = or_exit "problem running manager" (K.start m, m)

  abbrev pub run_manager : (enable_webhooks : String) → Options S × MeteorConfig C → Run M
  run_manager enable_webhooks (options, config) =
      new_manager options >=> set_up enable_webhooks config >=> serve

  -- `main` with the scheme that `init` left behind, the flag `config` and the environment variable
  -- `ENABLE_WEBHOOKS`. It ends with the manager that has run.
  unfoldable pub main : (empty : C) → S → (path enable_webhooks : String) → Run M
  unfolding load new_manager set_up serve
  main empty s path enable_webhooks =
      load empty path (default_options s) (initial_config empty) >=> run_manager enable_webhooks

  -- The process: Go calls `init` before `main`.
  unfoldable pub process :
      Registry S → (empty : C) → (path enable_webhooks : String) → Outcome (Run M)
  unfolding main init
  process R empty path enable_webhooks =
      init R (initial_config empty) >>= λ s. done (main empty s path enable_webhooks)

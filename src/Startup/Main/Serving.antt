-- ===== src/Startup/Main/Serving.antt =====
-- main.go: `main` serves when no call of controller-runtime fails.
use meteor_operator.Prelude.{
  String, ◌≡◌, refl, Bool, true, false, not, Option, none, some, List, ◌==◌,
}
use meteor_operator.Kube.Client.{Error, ok}
use meteor_operator.Startup.Config.{MeteorConfig, initial_config}
use meteor_operator.Startup.Scheme.{Registry}
use meteor_operator.Startup.Setup.{
  Kind, Options, Runtime, setup_meteor, setup_shower, setup_cre, setup_webhook,
}
use meteor_operator.Startup.Main.{
  Run, going, exited, ◌>=>◌, or_exit, when, default_options, load, new_manager, with_meteor,
  with_shower, with_cre, with_webhook, with_health, with_ready, set_up, serve, main,
}
use meteor_operator.Startup.Main.Views.{RuntimeLaws, planned, managed-view, managed-view}

-- It goes on.
abbrev Goes : {A : Type 0} → Run A → Type 0
Goes {A = A} r = (a : A) × (r ≡ going a)

>=>-Goes :
    {A B : Type 0} (r : Run A) (f : A → Run B)
    → Goes r
    → ((a : A) → r ≡ going a → Goes (f a))
    → Goes (r >=> f)
>=>-Goes (going a) f h k = k a refl
>=>-Goes (exited message) f (a, h) k = cc

or_exit-Goes :
    {A : Type 0} (message : String) (answer : Option Error × A)
    → answer.0 ≡ none
    → Goes (or_exit message answer)
or_exit-Goes message (none, a) h = (a, refl)
or_exit-Goes message (some _, a) h = cc

when-Goes :
    {A : Type 0} (b : Bool) (f : A → Run A) (a : A) → ((a : A) → Goes (f a)) → Goes (when b f a)
when-Goes true f a h = h a
when-Goes false f a h = (a, refl)

-- No call for the set-up fails.
pub record Succeeds {S C M : Type 0} (K : Runtime S C M) : Type 0 where
  pub kubeconfig : K.has_kubeconfig ≡ true
  pub manager : (o : Options S) → (m : M) × (K.new_manager o ≡ ok m)
  pub controllers :
      (for : Kind) (owns : List Kind) (m : M) → (K.complete_controller for owns m).0 ≡ none
  pub webhooks : (for : Kind) (m : M) → (K.complete_webhook for m).0 ≡ none
  pub health : (name : String) (m : M) → (K.add_healthz_check name m).0 ≡ none
  pub ready : (name : String) (m : M) → (K.add_readyz_check name m).0 ≡ none

module _ {S C M : Type 0} (empty : C) (R : Registry S) (K : Runtime S C M)
    (L : RuntimeLaws empty R K) (A : Succeeds K) where
  new_manager-Goes : (o : Options S) → Goes (new_manager K o)
  unfolding new_manager
  new_manager-Goes o = let (m, e) = A.manager o in rw (A.kubeconfig, e) (m, refl)

  set_up-Goes : (env : String) (c : MeteorConfig C) (m : M) → Goes (set_up K env c m)
  unfolding set_up setup_meteor setup_shower setup_cre setup_webhook
  set_up-Goes env c m =
      >=>-Goes _ (with_ready K)
        (>=>-Goes _ (with_health K)
          (>=>-Goes _ (when (not (env == "false")) (with_webhook K))
            (>=>-Goes _ (with_cre K)
              (>=>-Goes (with_meteor K m) (when c.spec.enable_shower (with_shower K))
                (or_exit-Goes _ _ (A.controllers _ _ m))
                (λ m _.
                  when-Goes _ (with_shower K) m (λ m. or_exit-Goes _ _ (A.controllers _ _ m))))
              (λ m _. or_exit-Goes _ _ (A.controllers _ _ m)))
            (λ m _. when-Goes _ (with_webhook K) m (λ m. or_exit-Goes _ _ (A.webhooks _ m))))
          (λ m _. or_exit-Goes _ _ (A.health _ m)))
        (λ m _. or_exit-Goes _ _ (A.ready _ m))

  -- When the configuration is loaded, no call for the set-up fails, and a manager that runs what is
  -- planned starts, `main` serves and ends without a failure.
  pub main-serves :
      (s : S) (path env : String) (o : Options S) (c : MeteorConfig C)
      → load K empty path (default_options s) (initial_config empty) ≡ going (o, c)
      → ((m : M)
          → K.view m ≡ planned c.spec.enable_shower (not (env == "false")) o.scheme
          → K.start m ≡ none)
      → (m : M) × (main K empty s path env ≡ going m)
  unfolding main serve
  main-serves s path env o c l k = rw l (
      >=>-Goes _ (serve K)
        (>=>-Goes (new_manager K o) (set_up K env c) (new_manager-Goes o)
          (λ m _. set_up-Goes env c m))
        (λ m' h. or_exit-Goes _ (K.start m', m') (k m' (managed-view empty R K L env c o m' h))))

-- ===== src/Startup/Main/Showers.antt =====
-- main.go, lines 48 to 58: `init` runs before the configuration is read, and what follows from it.
use mathlib.Core.Path.{subst}
use meteor_operator.Prelude.{
  String, ◌≡◌, ◌≢◌, refl, sym, ap, ◌∙◌, Bool, true, false, not, Option, none, some, ◌||◌, ◌==◌, All,
}
use mathlib.Core.Bool.{true≢false}
use meteor_operator.Kube.Client.{Error, done, >>=-eq-done, done-injective}
use meteor_operator.Startup.Config.{MeteorConfig, initial_config}
use meteor_operator.Startup.Scheme.{
  Group, client_go, meteor, pipeline, route, monitoring, same_group, Registry, RegistryLaws, must,
  register, register_route, init,
}
use meteor_operator.Startup.Setup.{View, Runtime, group_of}
use meteor_operator.Startup.Main.Views.{RuntimeLaws, planned, going-injective}
use meteor_operator.Startup.Main.Laws.{Serves, main-Serves}
use meteor_operator.Startup.Main.{going, default_options, load, main, process}

must-eq-done :
    {S : Type 0} (answer : Option Error × S) {s : S} → must answer ≡ done s → answer ≡ (none, s)
must-eq-done (none, t) h = ap (λ x. (none, x)) (done-injective h)
must-eq-done (some _, t) h = cc

all_but_route :
    (g : Group)
    → (same_group monitoring g
        || (same_group pipeline g || (same_group meteor g || (same_group client_go g || false))))
      ≡ not (same_group route g)
all_but_route client_go = refl
all_but_route meteor = refl
all_but_route pipeline = refl
all_but_route route = refl
all_but_route monitoring = refl

abbrev Knows : {S : Type 0} → Registry S → View S → Type 0
Knows R v = All (λ k. R.knows v.scheme (group_of k) ≡ true) v.watched

-- Among the kinds of a plan with Showers are the Routes.
planned-Knows :
    {S : Type 0} (R : Registry S) (b e : Bool) (s : S)
    → b ≡ true
    → Knows R (planned b e s)
    → R.knows s route ≡ true
planned-Knows R true e s h (_, (_, (_, (_, (_, (k, _)))))) = k
planned-Knows R false e s h k = cc

module _ {S : Type 0} (R : Registry S) (RL : RegistryLaws R) where
  register-knows :
      (g h : Group) (s s' : S)
      → register R g s ≡ done s'
      → R.knows s' h ≡ (same_group g h || R.knows s h)
  register-knows g h s s' e = RL.add-knows g h s s' (must-eq-done _ e)

  -- A scheme that `init` leaves behind knows every group of the source but that of the Routes,
  -- since the configuration that `init` reads is the initial one.
  pub init-knows :
      {C : Type 0} (empty : C) (s : S) (g : Group)
      → init R (initial_config empty) ≡ done s
      → R.knows s g ≡ not (same_group route g)
  unfolding init
  init-knows empty s g h =
      let (s4, h4, k5) = >>=-eq-done _ (register R monitoring) h in
      let (s3, h3, k4) = >>=-eq-done _ (register_route R false) h4 in
      let (s2, h2, k3) = >>=-eq-done _ (register R pipeline) h3 in
      let (s1, k1, k2) = >>=-eq-done (register R client_go R.new_scheme) (register R meteor) h2 in
      register-knows monitoring g s4 s k5
      ∙ ap (λ b. same_group monitoring g || b)
          (ap (λ t. R.knows t g) (sym (done-injective k4))
            ∙ register-knows pipeline g s2 s3 k3
            ∙ ap (λ b. same_group pipeline g || b)
                (register-knows meteor g s1 s2 k2
                  ∙ ap (λ b. same_group meteor g || b)
                      (register-knows client_go g R.new_scheme s1 k1
                        ∙ ap (λ b. same_group client_go g || b) (RL.new-knows g))))
      ∙ all_but_route g

module _ {S C M : Type 0} (empty : C) (R : Registry S) (RL : RegistryLaws R) (K : Runtime S C M)
    (L : RuntimeLaws empty R K) where
  process-main :
      (path env : String) (s : S)
      → init R (initial_config empty) ≡ done s
      → process K R empty path env ≡ done (main K empty s path env)
  unfolding process
  process-main path env s i = rw i refl

  Serves-route :
      (path env : String) (s : S) (c : MeteorConfig C) (m : M)
      → load K empty path (default_options s) (initial_config empty) ≡ going (default_options s, c)
      → c.spec.enable_shower ≡ true
      → Serves empty R K L s path env m
      → R.knows s route ≡ true
  Serves-route path env s c m l e (c', l', st, v) =
      planned-Knows R c'.spec.enable_shower (not (env == "false")) s
        (ap (λ x. x.1.spec.enable_shower) (going-injective (sym l' ∙ l)) ∙ e)
        (subst (Knows R) v (L.start-knows m st))

  -- No process ends well when its configuration enables Showers.
  pub process-without_showers :
      (path env : String) (s : S) (c : MeteorConfig C) (m : M)
      → init R (initial_config empty) ≡ done s
      → load K empty path (default_options s) (initial_config empty) ≡ going (default_options s, c)
      → c.spec.enable_shower ≡ true
      → process K R empty path env ≢ done (going m)
  process-without_showers path env s c m i l e h = true≢false (
      sym (
        Serves-route path env s c m l e (
          main-Serves empty R K L s path env m
            (done-injective (sym (process-main path env s i) ∙ h))))
      ∙ init-knows R RL empty s route i)

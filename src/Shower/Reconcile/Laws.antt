-- ===== src/Shower/Reconcile/Laws.antt =====
-- The actions of a Shower's reconciliation, in their order.
use mathlib.Core.Path.{subst}
use meteor_operator.Prelude.{
  ◌≡◌, ◌⊎◌, refl, ◌↔◌, ◌∙◌, sym, none, some, List, [], ◌∷◌, inl, inr, Option-cases,
}
use meteor_operator.Kube.Client.{Error, Outcome, done, done-injective, >>=-eq-done}
use meteor_operator.Kube.Library.{Library}
use meteor_operator.Api.Shower.{Shower}
use meteor_operator.Shower.Desired.{Groups}
use meteor_operator.Shower.Actions.{Api, Turn, Action}
use meteor_operator.Shower.Reconcile.{continue, run_actions}

module _ {W : Type 0} (lib : Library) (groups : Groups) (api : Api W) where
  -- Actions that ran: each without an error, or up to the first that had one.
  pub data Ran : List (Action lib groups api) → Shower → W → Turn W → Type 0 where
    finished : {s : Shower} {w : W} → Ran [] s w (record { error = none; shower = s; world = w })
    failed :
        {action : Action lib groups api} {more : List (Action lib groups api)} {s : Shower} {w : W}
        {t : Turn W} {e : Error}
        → action s w ≡ done t
        → t.error ≡ some e
        → Ran (action ∷ more) s w t
    passed :
        {action : Action lib groups api} {more : List (Action lib groups api)} {s : Shower} {w : W}
        {t u : Turn W}
        → action s w ≡ done t
        → t.error ≡ none
        → Ran more t.shower t.world u
        → Ran (action ∷ more) s w u

  continue-none :
      (rest : Shower → W → Outcome (Turn W)) (t : Turn W)
      → t.error ≡ none
      → continue lib groups api rest t ≡ rest t.shower t.world
  continue-none rest t n = rw n refl

  continue-some :
      (rest : Shower → W → Outcome (Turn W)) (t : Turn W) {e : Error}
      → t.error ≡ some e
      → continue lib groups api rest t ≡ done t
  continue-some rest t x = rw x refl

  ran :
      (action : Action lib groups api) (more : List (Action lib groups api)) (s : Shower) (w : W)
      (u t : Turn W)
      → (t.error ≡ none) ⊎ ((e : Error) × (t.error ≡ some e))
      → action s w ≡ done t
      → continue lib groups api (λ s' w'. run_actions lib groups api more s' w') t ≡ done u
      → ((s' : Shower) (w' : W) (v : Turn W)
          → run_actions lib groups api more s' w' ≡ done v
          → Ran more s' w' v)
      → Ran (action ∷ more) s w u
  ran action more s w u t (inl n) a c rest =
      passed a n
        (rest t.shower t.world u (sym (continue-none (run_actions lib groups api more) t n) ∙ c))
  ran action more s w u t (inr (e, x)) a c rest =
      subst (λ v. Ran (action ∷ more) s w v)
        (done-injective (sym (continue-some (run_actions lib groups api more) t x) ∙ c))
        (failed a x)

  run_actions-Ran :
      (all : List (Action lib groups api)) (s : Shower) (w : W) (u : Turn W)
      → run_actions lib groups api all s w ≡ done u
      → Ran all s w u
  unfolding run_actions
  run_actions-Ran [] s w u h = rw (sym (done-injective h)) finished
  run_actions-Ran (action ∷ more) s w u h =
      let (t, a, c) = >>=-eq-done (action s w) _ h in
      ran action more s w u t (Option-cases t.error) a c (run_actions-Ran more)

  Ran-run_actions :
      (all : List (Action lib groups api)) (s : Shower) (w : W) (u : Turn W)
      → Ran all s w u
      → run_actions lib groups api all s w ≡ done u
  unfolding run_actions
  Ran-run_actions [] s w u finished = refl
  Ran-run_actions (action ∷ more) s w u (failed a e) = rw (a, e) refl
  Ran-run_actions (action ∷ more) s w u (passed a n r) = rw (a, n) (Ran-run_actions more _ _ u r)

  -- The loop over the actions returns exactly when the actions ran in their order, each of them
  -- without an error, or up to the first that had one and that gives the result.
  pub run_actions_iff :
      (all : List (Action lib groups api)) (s : Shower) (w : W) (u : Turn W)
      → (run_actions lib groups api all s w ≡ done u) ↔ Ran all s w u
  run_actions_iff all s w u = (run_actions-Ran all s w u, Ran-run_actions all s w u)

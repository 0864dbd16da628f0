-- ===== src/Shower/Tasks/Runs.antt =====
-- The loop over the actions of a Shower, as a run of its tasks.
use mathlib.Core.Path.{subst}
use meteor_operator.Prelude.{
  String, ◌≡◌, refl, sym, ap, ◌∙◌, none, inl, inr, List, [], ◌∷◌, ◌++◌, map, All,
}
use meteor_operator.Kube.Client.{done, done-injective}
use meteor_operator.Kube.Library.{Library, KeepsKey}
use meteor_operator.Api.Shower.{Shower}
use meteor_operator.Shower.Ensure.{kept}
use meteor_operator.Shower.Desired.{
  Groups, shower_name, pipeline_name, external_name, deployment_spec, change_deployment,
}
use meteor_operator.Shower.Route.{route_differs}
use meteor_operator.Shower.Actions.{Api, Turn, Action, turn, own_actions, external_actions}
use meteor_operator.Shower.Actions.Confined.{externals_of}
use meteor_operator.Shower.Reconcile.{actions}
use meteor_operator.Shower.Reconcile.Laws.{Ran}
use meteor_operator.Shower.Tasks.{Task, ensure_task}
use meteor_operator.Shower.Tasks.Acts.{
  own_tasks, external_tasks, tasks_of, note, Follows, act, reconcile_route-Follows,
  external_actions-act,
}
use meteor_operator.Shower.Tasks.Cluster.{IsCluster, IsReady}
use meteor_operator.Shower.Tasks.Goals.{KeepsMaps, HasMaps}
use meteor_operator.Shower.Tasks.Core.{core, note-core}
use meteor_operator.Shower.Tasks.Ready.{ready_rests, ensure_task-EndsReady, ensure_task-IsReady}

module _ {W : Type 0} (lib : Library) (groups : Groups) (api : Api W) (home : String) where
  -- The actions do what the tasks say.
  abbrev pub Agrees : List (Action lib groups api) → List Task → Type 0
  Agrees [] [] = Unit
  Agrees [] (t ∷ ts) = ⊥
  Agrees (a ∷ acts) [] = ⊥
  Agrees (a ∷ acts) (t ∷ ts) = Follows lib groups api home a t × Agrees acts ts

  map-Agrees : (ts : List Task) → Agrees (map (act lib groups api home) ts) ts
  map-Agrees [] = tt
  map-Agrees (t ∷ ts) = ((λ s w. inl refl), map-Agrees ts)

  append-Agrees :
      (acts bs : List (Action lib groups api)) (ts us : List Task)
      → Agrees acts ts
      → Agrees bs us
      → Agrees (acts ++ bs) (ts ++ us)
  append-Agrees [] bs [] us p q = q
  append-Agrees [] bs (t ∷ ts) us p q = absurd p
  append-Agrees (a ∷ acts) bs [] us p q = absurd p
  append-Agrees (a ∷ acts) bs (t ∷ ts) us (p, ps) q = (p, append-Agrees acts bs ts us ps q)

  own-Agrees : Agrees (own_actions lib groups api home) own_tasks
  own-Agrees = (
    (λ s w. inl refl),
    (
      (λ s w. inl refl),
      (
        (λ s w. inl refl),
        (
          (λ s w. inl refl),
          (
            (λ s w. inl refl),
            (
              (λ s w. inl refl),
              (
                (λ s w. inl refl),
                ((λ s w. inl refl), (reconcile_route-Follows lib groups api home, tt)),
              ),
            ),
          ),
        ),
      ),
    ),
  )

  pub actions-Agrees : (s : Shower) → Agrees (actions lib groups api home s) (tasks_of s)
  actions-Agrees s =
      append-Agrees (own_actions lib groups api home)
        (external_actions lib groups api home (externals_of s)) own_tasks
        (external_tasks (externals_of s)) own-Agrees
        (subst (λ l. Agrees l (external_tasks (externals_of s)))
          (sym (external_actions-act lib groups api home (externals_of s)))
          (map-Agrees (external_tasks (externals_of s))))

-- The task is done, for all Showers that the objects are made from alike.
abbrev pub IsDone : {W : Type 0} → Groups → Api W → (home : String) → Shower → W → Task → Type 0
IsDone groups api home k w t = IsReady groups api home (core k) t w

module _ {W : Type 0} (lib : Library) (keeps : KeepsKey lib) (maps : KeepsMaps lib)
    (groups : Groups) (api : Api W) (home : String) (C : IsCluster api) (k : Shower)
    (keyed : HasMaps k) where
  to_done :
      (s : Shower) (t : Task) (w : W)
      → core s ≡ core k
      → IsReady groups api home s t w
      → IsDone groups api home k w t
  unfolding shower_name pipeline_name external_name deployment_spec change_deployment route_differs
  to_done s t w e r = subst (λ v. IsReady groups api home v t w) e r

  of_done :
      (s : Shower) (t : Task) (w : W)
      → core s ≡ core k
      → IsDone groups api home k w t
      → IsReady groups api home s t w
  unfolding shower_name pipeline_name external_name deployment_spec change_deployment route_differs
  of_done s t w e r = subst (λ v. IsReady groups api home v t w) (sym e) r

  has_maps : (s : Shower) → core s ≡ core k → HasMaps s
  has_maps s e = subst HasMaps (sym e) keyed

  -- How an action ends that does what the task says.
  abbrev ended : Task → Shower → W → Turn W
  ended t s w = let e = ensure_task lib groups api home t s w in turn (note lib t.kind s e.0) e

  ended-core :
      (t : Task) (s : Shower) (w : W) → core s ≡ core k → core (ended t s w).shower ≡ core k
  ended-core t s w e = note-core lib t.kind s (ensure_task lib groups api home t s w).0 ∙ e

  turn-ended :
      (a : Action lib groups api) (t : Task) (s : Shower) (w : W) (u : Turn W)
      → Follows lib groups api home a t
      → a s w ≡ done u
      → ended t s w ≡ u
  turn-ended a t s w u p h = elim (p s w) [ inl e ↦ done-injective (sym e ∙ h) | inr (e, _) ↦ cc ]

  ended-IsDone :
      (t₀ t : Task) (s : Shower) (w : W)
      → core s ≡ core k
      → IsDone groups api home k w t₀
      → IsDone groups api home k (ended t s w).world t₀
  ended-IsDone t₀ t s w e d = to_done s t₀ _ e (
      ensure_task-IsReady lib keeps maps groups api home C s (has_maps s e) t₀ t w
        (of_done s t₀ w e d))

  -- A task that is done before the loop is done after it.
  run-IsDone :
      (t₀ : Task) (acts : List (Action lib groups api)) (ts : List Task) (s : Shower) (w : W)
      (u : Turn W)
      → Agrees lib groups api home acts ts
      → core s ≡ core k
      → IsDone groups api home k w t₀
      → Ran lib groups api acts s w u
      → IsDone groups api home k u.world t₀
  run-IsDone t₀ [] ts s w u p e d (Ran.finished) = d
  run-IsDone t₀ (a ∷ acts) [] s w u p e d r = absurd p
  run-IsDone t₀ (a ∷ acts) (t ∷ ts) s w u (p, ps) e d (Ran.failed h x) =
      subst (λ v. IsDone groups api home k v.world t₀) (turn-ended a t s w u p h)
        (ended-IsDone t₀ t s w e d)
  run-IsDone t₀ (a ∷ acts) (t ∷ ts) s w u (p, ps) e d (Ran.passed {t = v} h n r) =
      let same = turn-ended a t s w v p h in
      run-IsDone t₀ acts ts v.shower v.world u ps
        (ap (λ v. core v.shower) (sym same) ∙ ended-core t s w e)
        (subst (λ v. IsDone groups api home k v.world t₀) same (ended-IsDone t₀ t s w e d)) r

  -- After a loop without an error, all the tasks are done.
  pub run-AllDone :
      (acts : List (Action lib groups api)) (ts : List Task) (s : Shower) (w : W) (u : Turn W)
      → Agrees lib groups api home acts ts
      → core s ≡ core k
      → u.error ≡ none
      → Ran lib groups api acts s w u
      → All (IsDone groups api home k u.world) ts
  run-AllDone [] [] s w u p e ok r = tt
  run-AllDone [] (t ∷ ts) s w u p e ok r = absurd p
  run-AllDone (a ∷ acts) [] s w u p e ok r = absurd p
  run-AllDone (a ∷ acts) (t ∷ ts) s w u (p, ps) e ok (Ran.failed h x) = cc
  run-AllDone (a ∷ acts) (t ∷ ts) s w u (p, ps) e ok (Ran.passed {t = v} h n r) =
      let same = turn-ended a t s w v p h in
      let e' = ap (λ v. core v.shower) (sym same) ∙ ended-core t s w e in
      (
        run-IsDone t acts ts v.shower v.world u ps e'
            (subst (λ v. IsDone groups api home k v.world t) same
              (to_done s t _ e (
                ensure_task-EndsReady lib keeps maps groups api home C s (has_maps s e) t w
                  (ap (λ v. v.error) same ∙ n))))
            r,
        run-AllDone acts ts v.shower v.world u ps e' ok r,
      )

  follows :
      (a : Action lib groups api) (t : Task) (s : Shower) (w : W)
      → Follows lib groups api home a t
      → IsReady groups api home s t w
      → a s w ≡ act lib groups api home t s w
  follows a t s w p r = elim (p s w) [ inl e ↦ e | inr (_, n) ↦ absurd (n r) ]

  -- Where all the tasks are done, the loop has no error and leaves the cluster as it is.
  pub done_rests :
      (acts : List (Action lib groups api)) (ts : List Task) (s : Shower) (w : W)
      → Agrees lib groups api home acts ts
      → core s ≡ core k
      → All (IsDone groups api home k w) ts
      → (u : Turn W) × Ran lib groups api acts s w u × (u.error ≡ none) × (u.world ≡ w)
  done_rests [] [] s w p e d =
      (record { error = none; shower = s; world = w }, Ran.finished, refl, refl)
  done_rests [] (t ∷ ts) s w p e d = absurd p
  done_rests (a ∷ acts) [] s w p e d = absurd p
  done_rests (a ∷ acts) (t ∷ ts) s w (p, ps) e (d, ds) =
      let r = of_done s t w e d in
      let s' = note lib t.kind s (kept r.0) in
      let (u, ran, ok, same) =
        done_rests acts ts s' w ps (note-core lib t.kind s (kept r.0) ∙ e) ds in
      (
        u,
        Ran.passed
            (follows a t s w p r
              ∙ ap (λ x. done (turn (note lib t.kind s x.0) x))
                  (ready_rests lib keeps maps groups api home C s (has_maps s e) t w r))
            refl ran,
        ok,
        same,
      )

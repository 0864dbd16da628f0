-- ===== src/Shower/Tasks/Acts.antt =====
-- The list `actions` of controllers/shower, as tasks.
use meteor_operator.Prelude.{
  String, ◌≡◌, refl, sym, ap, ◌∙◌, ◌≢◌, ◌⊎◌, some-injective, true, none, some, List, [], ◌∷◌, ◌++◌,
  ◌==◌, map, Bool-cases, inl, inr, if◌then◌else◌,
}
use meteor_operator.Kube.Client.{Result, ok, err, done, panic, ok-injective}
use meteor_operator.Kube.Library.{Library}
use meteor_operator.Api.Shower.{Shower}
use meteor_operator.Shower.Objects.{Route}
use meteor_operator.Shower.Ensure.{Ensured, after_get, ensure}
use meteor_operator.Shower.Desired.{Groups}
use meteor_operator.Shower.Route.{change_route, route_differs, after_get_route, ensure_route}
use meteor_operator.Shower.Actions.{
  Api, Action, turn, note_deployment, note_route, reconcile_route, external_actions,
}
use meteor_operator.Shower.Route.Copies.{merge, copy_into-merge}
use meteor_operator.Shower.Actions.Confined.{externals_of}
use mathlib.Core.Path.{subst}
use meteor_operator.Shower.Tasks.Cluster.{IsFixed, IsReady}
use meteor_operator.Shower.Tasks.{
  Kind, Object, Slot, Task, slot_key, aimed, change_aim, fresh, ensure_task,
}

abbrev pub task : Kind → Slot → Task
task K σ = record { kind = K; slot = σ }

abbrev pub own_tasks : List Task
own_tasks =
    task Kind.accounts Slot.own
    ∷ task Kind.roles Slot.own
    ∷ task Kind.bindings Slot.own
    ∷ task Kind.roles Slot.pipeline
    ∷ task Kind.bindings Slot.pipeline
    ∷ task Kind.deployments Slot.own
    ∷ task Kind.services Slot.own
    ∷ task Kind.monitors Slot.own
    ∷ task Kind.routes Slot.own
    ∷ []

abbrev pub external_tasks : List String → List Task
external_tasks [] = []
external_tasks (n ∷ names) =
    let rest = external_tasks names in
    if n == ""
    then rest
    else task Kind.roles (Slot.external n) ∷ task Kind.bindings (Slot.external n) ∷ rest

abbrev pub tasks_of : Shower → List Task
tasks_of s = own_tasks ++ external_tasks (externals_of s)

-- The conditions and the URL that come of an object.
abbrev pub note : Library → (K : Kind) → Shower → Ensured (Object K) → Shower
note lib Kind.accounts s e = s
note lib Kind.roles s e = s
note lib Kind.bindings s e = s
note lib Kind.deployments s e = note_deployment lib s e
note lib Kind.services s e = s
note lib Kind.monitors s e = s
note lib Kind.routes s e = note_route s e

aimed-ne :
    (s : Shower) (x : Route)
    → (merge s.spec.ingress.annotations x.meta.annotations ≢ x.meta.annotations)
      ⊎ (merge s.spec.ingress.labels x.meta.labels ≢ x.meta.labels)
    → (aimed s x).meta ≢ x.meta
aimed-ne s x (inl d) e = d (ap (λ m. m.annotations) e)
aimed-ne s x (inr d) e = d (ap (λ m. m.labels) e)

-- The Route is aimed, or the copying panics, and then the Route is not yet as it is wanted.
change_route-aimed :
    (s : Shower) (x : Route)
    → (change_route s x ≡ done (aimed s x))
      ⊎ ((change_route s x ≡ panic) × ((aimed s x).meta ≢ x.meta))
unfolding change_route
change_route-aimed s x = elim (copy_into-merge s.spec.ingress.annotations x.meta.annotations) [
  | inr (p, d) ↦ inr ((rw p refl), aimed-ne s x (inl d))
  | inl a ↦ elim (copy_into-merge s.spec.ingress.labels x.meta.labels) [
    | inr (p, d) ↦ inr ((rw (a, p) refl), aimed-ne s x (inr d))
    | inl l ↦ inl (rw (a, l) refl)
  ]
]

module _ {W : Type 0} (lib : Library) (groups : Groups) (api : Api W) (home : String) where
  abbrev pub act : Task → Action lib groups api
  act t s w = let e = ensure_task lib groups api home t s w in done (turn (note lib t.kind s e.0) e)

  -- The action does what the task says, or it panics, where the task is not done.
  abbrev pub Follows : Action lib groups api → Task → Type 0
  Follows a t =
      (s : Shower) (w : W)
      → (a s w ≡ act t s w) ⊎ ((a s w ≡ panic) × (IsReady groups api home s t w → ⊥))

  aimed-unfixed :
      (s : Shower) (x : Route)
      → route_differs s x ≡ true
      → (aimed s x).meta ≢ x.meta
      → IsFixed Kind.routes (change_aim s) x
      → ⊥
  aimed-unfixed s x d n (inl e) = cc (ap (λ b. if b then some (aimed s x) else none) d, e)
  aimed-unfixed s x d n (inr (y, e, f)) =
      let is = some-injective (sym (ap (λ b. if b then some (aimed s x) else none) d) ∙ e) in
      n (ap (λ (r : Route). r.meta) is ∙ ap (λ (r : Route). r.meta) f)

  abbrev fresh_route : Shower → Route
  fresh_route s = fresh lib groups api home s Kind.routes Slot.own

  got_route-task :
      (s : Shower) (answer : Result Route × W)
      → (after_get_route lib api.routes s home answer
          ≡ done (after_get api.routes (fresh_route s) (change_aim s) answer))
        ⊎ ((after_get_route lib api.routes s home answer ≡ panic)
            × ((x : Route) → answer.0 ≡ ok x → IsFixed Kind.routes (change_aim s) x → ⊥))
  unfolding after_get_route
  got_route-task s (ok x, w) = elim (Bool-cases (route_differs s x)) [
    | inr d ↦ inl (rw d refl)
    | inl d ↦ elim (change_route-aimed s x) [
      | inl c ↦ inl (rw (d, c) refl)
      | inr (p, n) ↦ inr (
        rw (d, p) refl,
        (λ y e f.
            aimed-unfixed s x d n
              (subst (IsFixed Kind.routes (change_aim s)) (sym (ok-injective e)) f)),
      )
    ]
  ]
  got_route-task s (err e, w) = elim (Bool-cases e.not_found) [
    | inl n ↦ inl (rw n refl)
    | inr n ↦ inl (rw n refl)
  ]

  pub reconcile_route-Follows :
      Follows (reconcile_route lib groups api home) (task Kind.routes Slot.own)
  unfolding ensure_route ensure
  reconcile_route-Follows s w =
      elim (got_route-task s (api.routes.get (slot_key home s Slot.own) w)) [
        | inl e ↦ inl (rw e refl)
        | inr (p, n) ↦ inr (rw p refl, (λ (x, g, f). n x g f))
      ]

  pub external_actions-act :
      (names : List String)
      → external_actions lib groups api home names ≡ map act (external_tasks names)
  external_actions-act [] = refl
  external_actions-act (n ∷ names) = elim (Bool-cases (n == "")) [
    | inl e ↦ rw e (external_actions-act names)
    | inr e ↦ rw (e, external_actions-act names) refl
  ]

-- ===== src/Shower/Tasks/Ready.antt =====
-- Tasks of controllers/shower that are done, and stay so.
use mathlib.Core.Path.{subst}
use meteor_operator.Prelude.{
  String, ◌≡◌, ◌≢◌, ◌⊎◌, refl, sym, ap, ◌∙◌, Option, none, some, Bool-cases, inl, inr,
}
use meteor_operator.Kube.Meta.{named}
use meteor_operator.Kube.Client.{Result, ok, err}
use meteor_operator.Kube.Library.{Library, KeepsKey}
use meteor_operator.Api.Shower.{Shower}
use meteor_operator.Shower.Ensure.{
  Ensured, kept, error_of, after_create, after_update, amend, after_get, ensure,
}
use meteor_operator.Shower.Ensure.Again.{with_world}
use meteor_operator.Shower.Ensure.Writes.{ensure-keeps}
use meteor_operator.Shower.Desired.{Groups}
use meteor_operator.Shower.Actions.{Api}
use meteor_operator.Shower.Tasks.{
  Kind, Object, place_of, resource, Slot, Task, slot_name, slot_namespace, slot_key, change, fresh,
  ensure_task,
}
use meteor_operator.Shower.Tasks.Cluster.{read, IsCluster, IsFixed, IsReady}
use meteor_operator.Shower.Tasks.Goals.{
  KeepsMaps, HasMaps, goal-IsFixed, change-place, change-IsFixed,
}
use meteor_operator.Shower.Tasks.Places.{AreApart, Task-cases}

module _ {W : Type 0} (lib : Library) (keeps : KeepsKey lib) (maps : KeepsMaps lib)
    (groups : Groups) (api : Api W) (home : String) (C : IsCluster api) (s : Shower)
    (keyed : HasMaps s) where
  fresh-place :
      (K : Kind) (σ : Slot) → place_of K (fresh lib groups api home s K σ) ≡ slot_key home s σ
  fresh-place Kind.accounts σ =
      keeps s.type_meta s.meta (named (slot_name home s σ) (slot_namespace home σ))
  fresh-place Kind.roles σ =
      keeps s.type_meta s.meta (named (slot_name home s σ) (slot_namespace home σ))
  fresh-place Kind.bindings σ =
      keeps s.type_meta s.meta (named (slot_name home s σ) (slot_namespace home σ))
  fresh-place Kind.deployments σ =
      keeps s.type_meta s.meta (named (slot_name home s σ) (slot_namespace home σ))
  fresh-place Kind.services σ =
      keeps s.type_meta s.meta (named (slot_name home s σ) (slot_namespace home σ))
  fresh-place Kind.monitors σ =
      keeps s.type_meta s.meta (named (slot_name home s σ) (slot_namespace home σ))
  fresh-place Kind.routes σ = keeps s.type_meta s.meta _

  abbrev Done : Task → W → Type 0
  Done t w = IsReady groups api home s t w

  amend-fixed :
      (t : Task) (x : Object t.kind) (w : W)
      → read api t.kind (slot_key home s t.slot) w ≡ ok x
      → IsFixed t.kind (change groups home s t.kind t.slot) x
      → amend (resource api t.kind) x (change groups home s t.kind t.slot x) w ≡ (kept x, w)
  amend-fixed t x w g (inl n) = ap (λ c. amend (resource api t.kind) x c w) n
  amend-fixed t x w g (inr (y, e, f)) =
      let place = C.get-place t.kind (slot_key home s t.slot) x w g in
      ap (λ c. amend (resource api t.kind) x c w) e
      ∙ ap (after_update (resource api t.kind))
          (C.update_same t.kind x y w (ap (λ k. read api t.kind k w) place ∙ g) f)

  -- A task that is done changes nothing.
  pub ready_rests :
      (t : Task) (w : W) (r : Done t w) → ensure_task lib groups api home t s w ≡ (kept r.0, w)
  unfolding ensure
  ready_rests t w (x, g, f) =
      ap
        (after_get (resource api t.kind) (fresh lib groups api home s t.kind t.slot)
          (change groups home s t.kind t.slot))
        (with_world ((resource api t.kind).get (slot_key home s t.slot) w) w
          (C.get-world t.kind (slot_key home s t.slot) w))
      ∙ ap
          (λ a.
            after_get (resource api t.kind) (fresh lib groups api home s t.kind t.slot)
              (change groups home s t.kind t.slot) (a, w))
          g
      ∙ amend-fixed t x w g f

  -- It ends with an error, or the task is done.
  abbrev EndsReady : (t : Task) → Ensured (Object t.kind) × W → Type 0
  EndsReady t (e, w) = error_of e ≡ none → Done t w

  created-EndsReady :
      (t : Task) (answer : Result (Object t.kind) × W) (w : W)
      → (resource api t.kind).create (fresh lib groups api home s t.kind t.slot) w ≡ answer
      → EndsReady t (after_create (resource api t.kind) answer)
  created-EndsReady t (ok y, w') w e n =
      let (g, c) = C.create-get t.kind (fresh lib groups api home s t.kind t.slot) y w w' e in
      (
        y,
        ap (λ k. read api t.kind k w') (sym (fresh-place t.kind t.slot)) ∙ g,
        goal-IsFixed lib maps groups api home s keyed t.kind t.slot y c,
      )
  created-EndsReady t (err _, w') w e n = cc

  updated-EndsReady :
      (t : Task) (x y : Object t.kind) (answer : Result (Object t.kind) × W) (w : W)
      → place_of t.kind x ≡ slot_key home s t.slot
      → change groups home s t.kind t.slot x ≡ some y
      → (resource api t.kind).update y w ≡ answer
      → EndsReady t (after_update (resource api t.kind) answer)
  updated-EndsReady t x y (ok z, w') w place ch e n =
      let (g, c) = C.update-get t.kind y z w w' e in
      let moved = change-place lib maps groups api home s keyed t.kind t.slot x y ch in
      (
        z,
        ap (λ k. read api t.kind k w') (sym (moved ∙ place)) ∙ g,
        change-IsFixed lib maps groups api home s keyed t.kind t.slot x y z ch c,
      )
  updated-EndsReady t x y (err _, w') w place ch e n = cc

  amended-EndsReady :
      (t : Task) (x : Object t.kind) (changed : Option (Object t.kind)) (w : W)
      → read api t.kind (slot_key home s t.slot) w ≡ ok x
      → change groups home s t.kind t.slot x ≡ changed
      → EndsReady t (amend (resource api t.kind) x changed w)
  amended-EndsReady t x none w g ch = λ n. (x, g, inl ch)
  amended-EndsReady t x (some y) w g ch =
      updated-EndsReady t x y ((resource api t.kind).update y w) w
        (C.get-place t.kind (slot_key home s t.slot) x w g) ch refl

  got-EndsReady :
      (t : Task) (r : Result (Object t.kind)) (w : W)
      → read api t.kind (slot_key home s t.slot) w ≡ r
      → EndsReady t (
          after_get
            (resource api t.kind)
            (fresh lib groups api home s t.kind t.slot)
            (change groups home s t.kind t.slot)
            (r, w))
  got-EndsReady t (ok x) w g = amended-EndsReady t x _ w g refl
  got-EndsReady t (err e) w g = elim (Bool-cases e.not_found) [
    | inl h ↦ rw h (created-EndsReady t _ w refl)
    | inr h ↦ rw h (λ n. cc)
  ]

  -- A task that ends without an error is done.
  pub ensure_task-EndsReady :
      (t : Task) (w : W) → EndsReady t (ensure_task lib groups api home t s w)
  unfolding ensure
  ensure_task-EndsReady t w =
      let answered =
        with_world ((resource api t.kind).get (slot_key home s t.slot) w) w
          (C.get-world t.kind (slot_key home s t.slot) w) in
      subst
        (λ a. EndsReady t (
          after_get (resource api t.kind) (fresh lib groups api home s t.kind t.slot)
            (change groups home s t.kind t.slot) a))
        (sym answered) (got-EndsReady t _ w refl)

  writes_elsewhere :
      (t u : Task) (y : Object u.kind)
      → AreApart home s t u
      → place_of u.kind y ≡ slot_key home s u.slot
      → (t.kind ≢ u.kind) ⊎ (place_of u.kind y ≢ slot_key home s t.slot)
  writes_elsewhere t u y (inl d) place = inl d
  writes_elsewhere t u y (inr d) place = inr (λ e. d (sym place ∙ e))

  apart-IsReady :
      (t u : Task) (w : W)
      → AreApart home s t u
      → Done t w
      → Done t (ensure_task lib groups api home u s w).1
  apart-IsReady t u w d (x, g, f) = (
    x,
    ensure-keeps (λ v. read api t.kind (slot_key home s t.slot) v ≡ ok x)
        (λ y. (t.kind ≢ u.kind) ⊎ (place_of u.kind y ≢ slot_key home s t.slot))
        (resource api u.kind) (C.apart t.kind u.kind (slot_key home s t.slot) (ok x))
        (slot_key home s u.slot) (fresh lib groups api home s u.kind u.slot)
        (change groups home s u.kind u.slot) w
        (writes_elsewhere t u _ d (fresh-place u.kind u.slot))
        (λ a b got ch. writes_elsewhere t u b d (
          change-place lib maps groups api home s keyed u.kind u.slot a b ch
          ∙ C.get-place u.kind (slot_key home s u.slot) a w got))
        g,
    f,
  )

  -- Whatever task comes next, a task that is done stays done.
  pub ensure_task-IsReady :
      (t u : Task) (w : W) → Done t w → Done t (ensure_task lib groups api home u s w).1
  ensure_task-IsReady t u w r = elim (Task-cases home s t u) [
    | inr d ↦ apart-IsReady t u w d r
    | inl e ↦
        subst (λ v. Done t (ensure_task lib groups api home v s w).1) e
          (subst (Done t) (sym (ap (λ p. p.1) (ready_rests t w r))) r)
  ]

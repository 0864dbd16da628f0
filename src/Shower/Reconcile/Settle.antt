-- ===== src/Shower/Reconcile/Settle.antt =====
-- A Shower that is reconciled again after a reconciliation that has succeeded.
use mathlib.Core.Path.{subst}
use meteor_operator.Prelude.{
  String, ◌≡◌, refl, sym, ap, ◌∙◌, true, false, not, Option, none, some, List, [], ◌∷◌, ◌++◌, map,
  ◌==◌, sprintf, All, Bool-cases, inl, inr, if◌then◌else◌,
}
use meteor_operator.Kube.Meta.{NamespacedName, ObjectMeta, is_unset}
use meteor_operator.Kube.Client.{
  Error, Result, ok, err, done, done-injective, ◌>>=◌, >>=-eq-done, Requeue, no_requeue, Returns,
}
use meteor_operator.Kube.Library.{Library, KeepsKey}
use meteor_operator.Api.Shower.{Shower, ShowerSpec}
use meteor_operator.Shower.Desired.{Groups}
use meteor_operator.Shower.Actions.{Api}
use meteor_operator.Shower.Reconcile.{
  default_image_base, version, refresh_status, actions, run_actions, after_status_update,
  update_status_now, on_shower, reconcile,
}
use meteor_operator.Shower.Reconcile.Laws.{run_actions_iff}
use meteor_operator.Shower.Tasks.{Kind, Task}
use meteor_operator.Shower.Tasks.Acts.{own_tasks, external_tasks, tasks_of}
use meteor_operator.Shower.Tasks.Goals.{KeepsMaps, HasMaps}
use meteor_operator.Shower.Tasks.Cluster.{read, IsCluster}
use meteor_operator.Shower.Tasks.Core.{core}
use meteor_operator.Shower.Tasks.Runs.{actions-Agrees, IsDone, run-AllDone, done_rests}

abbrev refreshed : Shower → Shower
refreshed s = record s { status = refresh_status s }

-- Only the status may differ.
abbrev pub AreAlike : Shower → Shower → Type 0
AreAlike a b = (a.type_meta ≡ b.type_meta) × (a.meta ≡ b.meta) × (a.spec ≡ b.spec)

-- What the objects are made from does not depend on the status before.
refreshed-core : (a b : Shower) → AreAlike a b → core (refreshed a) ≡ core (refreshed b)
unfolding refresh_status
refreshed-core a b (t, m, p) i = record {
  type_meta = t i;
  meta = m i;
  spec = p i;
  status = record {
    phase = "";
    conditions = [];
    observed_generation = 0;
    image =
        if not ((p i).image == "")
        then (p i).image
        else sprintf (default_image_base ∷ version ∷ []);
    url = "";
  };
}

module _ {W : Type 0} (lib : Library) (groups : Groups) (api : Api W) where
  live :
      (req : NamespacedName) (s : Shower) (w : W)
      → not (is_unset s.meta.deletion_timestamp) ≡ false
      → on_shower lib groups api req (ok s, w) ≡ (
          run_actions lib groups api
            (actions lib groups api req.namespace (refreshed s))
            (refreshed s)
            w
          >>= λ t. done (update_status_now lib groups api t))
  unfolding on_shower run_actions
  live req s w h = rw h refl

  leaving :
      (req : NamespacedName) (s : Shower) (w : W)
      → not (is_unset s.meta.deletion_timestamp) ≡ true
      → on_shower lib groups api req (ok s, w) ≡ done ((no_requeue, none), w)
  unfolding on_shower
  leaving req s w h = rw h refl

  on_got :
      (req : NamespacedName) (s : Shower) (w w' : W)
      → api.showers.get req w ≡ (ok s, w')
      → reconcile lib groups api req w ≡ on_shower lib groups api req (ok s, w')
  unfolding reconcile
  on_got req s w w' g = ap (on_shower lib groups api req) g

  status_updated :
      (original : Option Error) (answer : Result Shower × W) (w : W)
      → after_status_update lib groups api original answer ≡ ((no_requeue, none), w)
      → (original ≡ none) × (answer.1 ≡ w)
  status_updated none (ok _, v) w h = (refl, ap (λ p. p.1) h)
  status_updated (some e) (ok _, v) w h = cc
  status_updated none (err e, v) w h = cc
  status_updated (some _) (err e, v) w h = cc

  no_error :
      (answer : Result Shower × W)
      → ((after_status_update lib groups api none answer).0.1 ≡ none)
        × ((after_status_update lib groups api none answer).1 ≡ answer.1)
  no_error (ok _, w) = (refl, refl)
  no_error (err _, w) = (refl, refl)

module _ {W : Type 0} (lib : Library) (keeps : KeepsKey lib) (maps : KeepsMaps lib)
    (groups : Groups) (api : Api W) (C : IsCluster api) where
  -- A reconciliation that returns, without an error, and leaves all objects as `w` has them.
  abbrev pub Rests : W → (Requeue × Option Error) × W → Type 0
  Rests w x = (x.0.1 ≡ none) × ((K : Kind) (k : NamespacedName) → read api K k x.1 ≡ read api K k w)

  module _ (home : String) (k : Shower) where
    -- The update of the Shower's status leaves the tasks done.
    status-AllDone :
        (s : Shower) (w : W) (ts : List Task)
        → All (IsDone groups api home k w) ts
        → All (IsDone groups api home k (api.showers.update_status s w).1) ts
    status-AllDone s w [] d = tt
    status-AllDone s w (t ∷ ts) ((x, g, f), ds) =
        ((x, C.status-apart t.kind _ s w ∙ g, f), status-AllDone s w ts ds)

  first_AllDone :
      (req : NamespacedName) (s : Shower) (keyed : HasMaps (refreshed s)) (w w' : W)
      → not (is_unset s.meta.deletion_timestamp) ≡ false
      → on_shower lib groups api req (ok s, w) ≡ done ((no_requeue, none), w')
      → All (IsDone groups api req.namespace (refreshed s) w') (tasks_of s)
  first_AllDone req s keyed w w' here h =
      let (t, ran, upd) =
        >>=-eq-done (run_actions lib groups api _ (refreshed s) w) _
          (sym (live lib groups api req s w here) ∙ h) in
      let (fine, at) = status_updated lib groups api t.error _ w' (done-injective upd) in
      subst (λ v. All (IsDone groups api req.namespace (refreshed s) v) (tasks_of s)) at
        (status-AllDone req.namespace (refreshed s) t.shower t.world (tasks_of s) (
          run-AllDone lib keeps maps groups api req.namespace C (refreshed s) keyed _ (tasks_of s)
            (refreshed s) w t (actions-Agrees lib groups api req.namespace (refreshed s)) refl fine
            ((run_actions_iff lib groups api _ (refreshed s) w t).0 ran)))

  second_Rests :
      (req : NamespacedName) (s s' : Shower) (keyed : HasMaps (refreshed s)) (w : W)
      → not (is_unset s'.meta.deletion_timestamp) ≡ false
      → AreAlike s' s
      → All (IsDone groups api req.namespace (refreshed s) w) (tasks_of s')
      → Returns (Rests w) (on_shower lib groups api req (ok s', w))
  second_Rests req s s' keyed w here alike d =
      let (u, ran, fine, same) =
        done_rests lib keeps maps groups api req.namespace C (refreshed s) keyed
          (actions lib groups api req.namespace (refreshed s')) (tasks_of s') (refreshed s') w
          (actions-Agrees lib groups api req.namespace (refreshed s')) (refreshed-core s' s alike)
          d in
      let answer = api.showers.update_status u.shower u.world in
      let (quiet, left) = no_error lib groups api answer in
      subst (Returns (Rests w))
        (sym (
          live lib groups api req s' w here
          ∙ ap (λ m. m >>= λ t. done (update_status_now lib groups api t))
              ((run_actions_iff lib groups api _ (refreshed s') w u).1 ran)))
        (subst (λ o. Rests w (after_status_update lib groups api o answer)) (sym fine)
          (
            quiet,
            (λ K k.
                ap (read api K k) left
                ∙ C.status-apart K k u.shower u.world
                ∙ ap (read api K k) same),
          ))

  -- In a cluster where only the operator writes the objects of a Shower, and where writes are stored
  -- as they are made, but for Routes, which get a weight, and a host when they name none: when a reconciliation of a Shower has succeeded, then reconciling it
  -- again, with nothing but its status changed in between, does not panic, ends without an error, and
  -- leaves every service account, Role, RoleBinding, Deployment, Service, ServiceMonitor and Route
  -- as it is. The annotations and the labels of the ingress have no key twice.
  pub reconcile-Rests :
      (req : NamespacedName) (s s' : Shower) (w w₀ w' : W)
      → HasMaps s
      → api.showers.get req w ≡ (ok s, w₀)
      → reconcile lib groups api req w ≡ done ((no_requeue, none), w')
      → api.showers.get req w' ≡ (ok s', w')
      → AreAlike s' s
      → Returns (Rests w') (reconcile lib groups api req w')
  reconcile-Rests req s s' w w₀ w' keyed got first got' alike =
      let gone = ap (λ (m : ObjectMeta). not (is_unset m.deletion_timestamp)) alike.1 in
      subst (Returns (Rests w')) (sym (on_got lib groups api req s' w' w' got'))
        (elim (Bool-cases (not (is_unset s.meta.deletion_timestamp))) [
          | inl h ↦
              subst (Returns (Rests w')) (sym (leaving lib groups api req s' w' (gone ∙ h)))
                (refl, (λ K k. refl))
          | inr h ↦ second_Rests req s s' keyed w' (gone ∙ h) alike (
              subst (All (IsDone groups api req.namespace (refreshed s) w'))
                (sym (
                  ap
                    (λ (p : ShowerSpec).
                      own_tasks ++ external_tasks (map (λ v. v.namespace) p.external_services))
                    alike.2))
                (first_AllDone req s keyed w₀ w' h
                  (sym (on_got lib groups api req s w w₀ got) ∙ first)))
        ])

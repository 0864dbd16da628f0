-- ===== src/Shower/Reconcile.antt =====
-- controllers/shower/shower_controller.go: `Reconcile` and `UpdateStatusNow`.
pub mod Laws
pub mod Confined
pub mod Settle
use meteor_operator.Prelude.{
  String, not, Option, none, some, List, [], ◌∷◌, ◌++◌, ◌==◌, map, sprintf, if◌then◌else◌,
}
use meteor_operator.Kube.Meta.{NamespacedName, is_unset}
use meteor_operator.Kube.Client.{
  Error, Result, ok, err, Outcome, done, ◌>>=◌, Requeue, no_requeue, requeue_now,
}
use meteor_operator.Kube.Library.{Library}
use meteor_operator.Api.Common.{phase_text}
use meteor_operator.Api.Shower.{Shower, ShowerStatus, aggregate_phase}
use meteor_operator.Meteor.State.{requeue_later}
use meteor_operator.Shower.Desired.{Groups}
use meteor_operator.Shower.Actions.{Api, Turn, Action, own_actions, external_actions}

-- `DefaultImageBase` and `version.Version`
abbrev pub default_image_base : String
default_image_base = "quay.io/thoth-station/meteor-shower:v"

abbrev pub version : String
version = "0.2.0"

-- The status before the actions. The phase is aggregated from the conditions of the time before.
unfoldable pub refresh_status : Shower → ShowerStatus
refresh_status s = record s.status {
  observed_generation = s.meta.generation;
  image =
      if not (s.spec.image == "")
      then s.spec.image
      else sprintf (default_image_base ∷ version ∷ []);
  phase = phase_text (aggregate_phase s);
}

module _ {W : Type 0} (lib : Library) (groups : Groups) (api : Api W) where
  -- The list `actions`.
  abbrev pub actions : (namespace : String) → Shower → List (Action lib groups api)
  actions namespace s =
      own_actions lib groups api namespace
      ++ external_actions lib groups api namespace
          (map (λ service. service.namespace) s.spec.external_services)

  abbrev pub continue : (Shower → W → Outcome (Turn W)) → Turn W → Outcome (Turn W)
  continue rest t = elim t.error [ some _ ↦ done t | none ↦ rest t.shower t.world ]

  -- The loop over the actions: the first error ends it.
  unfoldable pub run_actions : List (Action lib groups api) → Shower → W → Outcome (Turn W)
  run_actions [] s w = done (record { error = none; shower = s; world = w })
  run_actions (action ∷ more) s w =
      action s w >>= continue (λ (s' : Shower) (w' : W). run_actions more s' w')

  abbrev pub after_status_update : Option Error → Result Shower × W → (Requeue × Option Error) × W
  after_status_update none (ok _, w) = ((no_requeue, none), w)
  after_status_update (some e) (ok _, w) = ((requeue_later, some e), w)
  after_status_update original (err e, w) = ((requeue_now, none), w)

  abbrev pub update_status_now : Turn W → (Requeue × Option Error) × W
  update_status_now t = after_status_update t.error (api.showers.update_status t.shower t.world)

  abbrev pub on_shower : NamespacedName → Result Shower × W → Outcome ((Requeue × Option Error) × W)
  unfolding run_actions refresh_status
  on_shower req (err e, w) =
      done (if e.not_found then ((no_requeue, none), w) else ((requeue_now, some e), w))
  on_shower req (ok s, w) =
      if not (is_unset s.meta.deletion_timestamp)
      then done ((no_requeue, none), w)
      else (let refreshed = record s { status = refresh_status s } in
          run_actions (actions req.namespace refreshed) refreshed w >>= λ t.
          done (update_status_now t))

  unfoldable pub reconcile : NamespacedName → W → Outcome ((Requeue × Option Error) × W)
  unfolding run_actions refresh_status
  reconcile req w = on_shower req (api.showers.get req w)

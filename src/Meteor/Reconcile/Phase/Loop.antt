-- ===== src/Meteor/Reconcile/Phase/Loop.antt =====
-- The loop over the pipelines of a Meteor, when all their runs are there.
use mathlib.Core.Path.{subst}
use meteor_operator.Prelude.{
  ℕ, String, ◌≡◌, ◌↔◌, refl, sym, ap, ◌∙◌, true, Option, none, some, List, [], ◌∷◌, All, is_empty,
  sprintf,
}
use meteor_operator.Kube.Meta.{Time, ObjectMeta}
use meteor_operator.Kube.Conditions.{Condition, IsListMap, AreConditionOps}
use meteor_operator.Kube.Client.{Error, ok, Outcome, done, ◌>>=◌}
use meteor_operator.Kube.Library.{Library}
use meteor_operator.Tekton.{PipelineRun, RunCondition, ArrayOrString}
use meteor_operator.Api.Common.{succeeded}
use meteor_operator.Api.Meteor.{aggregate_phase}
use meteor_operator.Api.Meteor.Laws.{settled, aggregate_phase-eq-succeeded_iff}
use meteor_operator.Meteor.State.{Reconciler, Api, Step}
use meteor_operator.Meteor.Build.{Json, resource_name, status_index}
use meteor_operator.Meteor.Run.{
  with_index, copy_condition, observe_stage, observe_run, after_get, observed,
  reconcile_pipeline_run,
}
use meteor_operator.Meteor.Reconcile.{continue, reconcile_pipelines}
use meteor_operator.Meteor.Reconcile.Phase.{
  condition_of, passed, HaveTitles, AreOf, noted, noted-nonempty, noted-settled_iff,
}

abbrev conditions_of : Reconciler → List Condition
conditions_of r = r.meteor.status.conditions

module _ {W : Type 0} (lib : Library) (json : Json) (api : Api W) (namespace : String) (w : W)
    (shown : String → RunCondition) where
  -- The pipeline's run is there, and `shown` is its first condition.
  abbrev pub Shows : ObjectMeta → String → Type 0
  Shows μ name =
      (run : PipelineRun) × (cs : List RunCondition) × (api.pipeline_runs.get
          (record { name = sprintf (μ.name ∷ "-" ∷ name ∷ []); namespace = namespace }) w
        ≡ (ok run, w))
      × (run.status.conditions ≡ shown name ∷ cs)

  -- A step that has no error, leaves the cluster as it is, and makes the conditions `cs`.
  abbrev Leaves : ObjectMeta → List Condition → Step W → Type 0
  Leaves μ cs step =
      (step.error ≡ none)
      × (step.world ≡ w)
      × (step.reconciler.meteor.meta ≡ μ)
      × (conditions_of step.reconciler ≡ cs)

  abbrev after_one : Reconciler → String → List Condition
  after_one r name =
      lib.set_status_condition (conditions_of r)
        (condition_of r.meteor.meta.generation name (shown name))

  staged :
      (r : Reconciler) (name run : String) (i : ℕ) (values : List ArrayOrString)
      (ended : Option Time) (cs : List RunCondition)
      → (step : Step W) × (observed lib json api
            (observe_stage lib json api
              (copy_condition lib json api r name (shown name ∷ cs))
              run
              i
              values
              ended
              (shown name ∷ cs))
            w
          ≡ done step)
        × Leaves r.meteor.meta (after_one r name) step
  staged r name run i values none cs = (_, refl, (refl, refl, refl, refl))
  staged r name run i values (some t) cs = (_, refl, (refl, refl, refl, refl))

  seen :
      (r : Reconciler) (name run : String) (i : ℕ) (values : List ArrayOrString)
      (ended : Option Time) (cs tail : List RunCondition)
      → cs ≡ shown name ∷ tail
      → (step : Step W) × (observed lib json api
            (observe_stage lib json api
              (copy_condition lib json api r name cs)
              run
              i
              values
              ended
              cs)
            w
          ≡ done step)
        × Leaves r.meteor.meta (after_one r name) step
  seen r name run i values ended cs tail e =
      subst
        (λ cs.
          (step : Step W) × (observed lib json api
              (observe_stage lib json api (copy_condition lib json api r name cs) run i values ended
                cs)
              w
            ≡ done step)
          × Leaves r.meteor.meta (after_one r name) step)
        (sym e) (staged r name run i values ended tail)

  one_pipeline :
      (r : Reconciler) (name : String)
      → Shows r.meteor.meta name
      → (step : Step W) × (reconcile_pipeline_run lib json api r name namespace w ≡ done step)
        × Leaves r.meteor.meta (after_one r name) step
  unfolding reconcile_pipeline_run after_get observe_run resource_name
  one_pipeline r name (run, cs, got, first) =
      let (step, e, leaves) =
        seen (with_index r name) name (resource_name r.meteor name) (status_index r.meteor name).0
          run.status.pipeline_results run.status.completion_time run.status.conditions cs first in
      (
        step,
        ap
              (after_get lib json api (with_index r name) name namespace
                (status_index r.meteor name).0)
              got
            ∙ e,
        leaves,
      )

  abbrev Runs : List String → Reconciler → ObjectMeta → List Condition → Type 0
  Runs names r μ cs =
      (step : Step W) × (reconcile_pipelines lib json api names namespace r w ≡ done step)
      × Leaves μ cs step

  abbrev resume : List String → Reconciler → W → Option Error → Outcome (Step W)
  resume names r v error =
      continue lib json api (λ r' w'. reconcile_pipelines lib json api names namespace r' w')
        (record { error = error; reconciler = r; world = v })

  next :
      (name : String) (names : List String) (r : Reconciler) (μ : ObjectMeta) (cs : List Condition)
      (step : Step W)
      → reconcile_pipeline_run lib json api r name namespace w ≡ done step
      → step.error ≡ none
      → step.world ≡ w
      → Runs names step.reconciler μ cs
      → Runs (name ∷ names) r μ cs
  unfolding reconcile_pipelines
  next name names r μ cs step e n same (last, e', leaves) = (
    last,
    ap
          (λ m.
            m
            >>= continue lib json api
                (λ r' w'. reconcile_pipelines lib json api names namespace r' w'))
          e
        ∙ ap (resume names step.reconciler step.world) n
        ∙ ap (reconcile_pipelines lib json api names namespace step.reconciler) same
        ∙ e',
    leaves,
  )

  abbrev noted_by : List String → ObjectMeta → List Condition → List Condition
  noted_by names μ cs = noted lib μ.generation shown names cs

  -- The loop returns, and makes a condition of each run.
  loop :
      (names : List String) (r : Reconciler)
      → All (Shows r.meteor.meta) names
      → Runs names r r.meteor.meta (noted_by names r.meteor.meta (conditions_of r))
  unfolding reconcile_pipelines noted
  loop [] r a = (_, refl, (refl, refl, refl, refl))
  loop (name ∷ names) r (s, a) =
      let (step, e, (n, same, meta, cs)) = one_pipeline r name s in
      next name names r r.meteor.meta _ step e n same (
        subst (λ c. Runs names step.reconciler r.meteor.meta (noted_by names r.meteor.meta c)) cs
          (subst
            (λ μ. Runs names step.reconciler μ (noted_by names μ (conditions_of step.reconciler)))
            meta (loop names step.reconciler (subst (λ μ. All (Shows μ) names) (sym meta) a))))

  -- In a cluster where the runs of all pipelines are there, with conditions, the loop over the
  -- pipelines returns without an error. The phase that is aggregated from the conditions that it
  -- leaves is Succeeded exactly when the first condition of each run has the reason Succeeded or
  -- Completed, and not the status False. There is a pipeline, the pipelines differ in their title, and
  -- the Meteor had no conditions but those of its pipelines, each type once.
  pub reconcile_pipelines-succeeded_iff :
      (n : String) (names : List String) (r : Reconciler)
      → AreConditionOps lib.conditions
      → IsListMap r.meteor.status.conditions
      → HaveTitles (n ∷ names)
      → AreOf (n ∷ names) r.meteor.status.conditions
      → All (Shows r.meteor.meta) (n ∷ names)
      → (step : Step W) × (reconcile_pipelines lib json api (n ∷ names) namespace r w ≡ done step)
        × (step.error ≡ none)
        × ((aggregate_phase step.reconciler.meteor ≡ succeeded)
            ↔ All (λ n. passed (shown n) ≡ true) (n ∷ names))
  reconcile_pipelines-succeeded_iff n names r laws keyed titles own all =
      let (step, e, (fine, _, _, cs)) = loop (n ∷ names) r all in
      let μ = r.meteor.meta in
      let full =
        noted-nonempty lib laws μ.generation shown n names (conditions_of r) keyed titles in
      let iff =
        noted-settled_iff lib laws μ.generation shown (n ∷ names) (conditions_of r) keyed titles
          own in
      let verdict = aggregate_phase-eq-succeeded_iff step.reconciler.meteor in
      (
        step,
        e,
        fine,
        (
          (λ h. iff.0 (subst (All (λ c. settled c ≡ true)) cs (verdict.0 h).1)),
          (λ a.
              verdict.1
                (ap is_empty cs ∙ full, subst (All (λ c. settled c ≡ true)) (sym cs) (iff.1 a))),
        ),
      )

-- ===== src/Meteor/Run/Laws.antt =====
-- What a run does to the stages of a Meteor.
pub mod Tidy
pub mod Owned
pub mod Names
pub mod Shower
pub mod Confined
use meteor_operator.Prelude.{
  ℕ, String, ◌≡◌, ◌≢◌, refl, ◌↔◌, Bool, true, false, not, ◌&&◌, ◌||◌, Option, none, some, List, [],
  ◌∷◌, ◌==◌, any, arith, Bool-cases, inl, inr, if◌then◌else◌, ap,
}
use meteor_operator.Prelude.Int.{pos, eqb_ℤ}
use meteor_operator.Kube.Meta.{Time}
use meteor_operator.Kube.Client.{Error, Result, ok, err, Outcome, done, panic, Ends}
use meteor_operator.Kube.Library.{Library}
use meteor_operator.Tekton.{Param, PipelineRun, PipelineRunStatus, RunCondition}
use meteor_operator.Api.Common.{ComponentStatus}
use meteor_operator.Api.Meteor.{Meteor}
use meteor_operator.Api.Shower.{ShowerSpec}
use meteor_operator.Meteor.Slices.{contains_string, append_unique, remove}
use meteor_operator.Meteor.Slices.Laws.{IsUnique, contains-append_unique, contains-remove}
use meteor_operator.Meteor.State.{Reconciler, Api, Step}
use meteor_operator.Meteor.Build.{Json, resource_name, owner_references, params}
use meteor_operator.Meteor.Run.{
  settle, start, report, observe_stage, copy_condition, with_references, observe_run, create_run,
  after_get, reconcile_pipeline_run, with_index,
}

abbrev stage_of : Reconciler → ComponentStatus
stage_of r = r.meteor.status.stage

-- The members of the three lists after a run has ended with a reason.
abbrev pub Settled : ComponentStatus → (run reason : String) → ComponentStatus → Type 0
Settled before run reason after =
    (x : String)
    → (contains_string after.running x ≡ (contains_string before.running x && not (run == x)))
      × (contains_string after.succeeded x
          ≡ (contains_string before.succeeded x || reason == "Succeeded" && run == x))
      × (contains_string after.failed x
          ≡ (contains_string before.failed x || not (reason == "Succeeded") && run == x))

settle-Settled :
    (reason run : String) (stage : ComponentStatus)
    → IsUnique stage.running
    → Settled stage run reason (settle reason run stage)
unfolding settle
settle-Settled reason run stage u x = elim (Bool-cases (reason == "Succeeded")) [
  | inl h ↦ rw h (
    contains-remove stage.running run x u,
    contains-append_unique stage.succeeded run x,
    ground arith,
  )
  | inr h ↦ rw h (
    contains-remove stage.running run x u,
    ground arith,
    contains-append_unique stage.failed run x,
  )
]

module _ {W : Type 0} (lib : Library) (json : Json) (api : Api W) where
  copy_condition-stage :
      (r : Reconciler) (name : String) (cs : List RunCondition)
      → stage_of (copy_condition lib json api r name cs) ≡ stage_of r
  copy_condition-stage r name [] = refl
  copy_condition-stage r name (c ∷ cs) = refl

  abbrev pub SettlesTo :
      Reconciler → (name run : String) (i : ℕ) → PipelineRunStatus → (reason : String) → Type 0
  SettlesTo r name run i status reason =
      (r' : Reconciler) × (observe_run lib json api r name run i status ≡ done r')
      × Settled r.meteor.status.stage run reason r'.meteor.status.stage

  abbrev pub Starts : Reconciler → (name run : String) (i : ℕ) → PipelineRunStatus → Type 0
  Starts r name run i status =
      (r' : Reconciler) × (observe_run lib json api r name run i status ≡ done r')
      × ((x : String)
          → contains_string r'.meteor.status.stage.running x
            ≡ (contains_string r.meteor.status.stage.running x || run == x))
      × (r'.meteor.status.stage.succeeded ≡ r.meteor.status.stage.succeeded)
      × (r'.meteor.status.stage.failed ≡ r.meteor.status.stage.failed)

  -- Observing a run that has ended and has a condition returns: the run leaves Running, and enters
  -- Succeeded or Failed by the reason of its first condition, and the other members of the three
  -- lists stay. Running holds no name twice before.
  pub observe_run-Settled :
      (r : Reconciler) (name run : String) (i : ℕ) (status : PipelineRunStatus) (ended : Time)
      (c : RunCondition) (cs : List RunCondition)
      → status.completion_time ≡ some ended
      → status.conditions ≡ c ∷ cs
      → IsUnique r.meteor.status.stage.running
      → SettlesTo r name run i status c.reason
  unfolding observe_run
  observe_run-Settled r name run i status ended c cs t l u =
      rw (l, t) (_, refl, settle-Settled c.reason run r.meteor.status.stage u)

  -- Observing a run that has not ended returns: the run is in Running afterwards, and the lists are
  -- otherwise as they were.
  pub observe_run-started :
      (r : Reconciler) (name run : String) (i : ℕ) (status : PipelineRunStatus)
      → status.completion_time ≡ none
      → Starts r name run i status
  unfolding observe_run start
  observe_run-started r name run i status t =
      let kept = copy_condition-stage r name status.conditions in
      rw t (
        _,
        refl,
        rw kept (contains-append_unique r.meteor.status.stage.running run),
        ap (λ (x : ComponentStatus). x.succeeded) kept,
        ap (λ (x : ComponentStatus). x.failed) kept,
      )

  -- `ReconcilePipelineRun` panics on a run that it finds exactly when the run has a completion time
  -- and no condition.
  pub observe_run-eq-panic_iff :
      (r : Reconciler) (name run : String) (i : ℕ) (status : PipelineRunStatus)
      → (observe_run lib json api r name run i status ≡ panic)
        ↔ (status.conditions ≡ []) × (status.completion_time ≢ none)
  unfolding observe_run
  observe_run-eq-panic_iff r name run i status = panics status.completion_time status.conditions
    where
      panics :
          (ended : Option Time) (cs : List RunCondition)
          → (observe_stage lib json api
                (copy_condition lib json api r name status.conditions)
                run
                i
                status.pipeline_results
                ended
                cs
              ≡ panic)
            ↔ (cs ≡ []) × (ended ≢ none)
      panics none cs = (λ h. cc, λ (e, n). elim (n refl) [ ])
      panics (some _) [] = (λ h. (refl, λ e. cc), λ h. refl)
      panics (some _) (c ∷ _) = (λ h. cc, λ (e, n). cc)

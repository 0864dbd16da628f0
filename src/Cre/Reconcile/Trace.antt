-- ===== src/Cre/Reconcile/Trace.antt =====
-- Sequences of reconciliations and edits of a CustomRuntimeEnvironment, as runs of the machine.
use meteor_operator.Prelude.{
  ◌≡◌, ◌≢◌, refl, sym, ap, ◌∙◌, ◌⊎◌, inl, inr, false, List, [], ◌∷◌, ◌++◌, All, arith,
}
use meteor_operator.Kube.Conditions.{IsListMap, AreConditionOps}
use meteor_operator.Kube.Client.{Result, ok, err, Outcome, done, panic, Ends-done}
use meteor_operator.Kube.Library.{Library}
use meteor_operator.Api.Common.{succeeded}
use meteor_operator.Api.Cre.{CustomRuntimeEnvironment}
use meteor_operator.Cre.Machine.{
  Facts, Kind, import_run, package_list_run, other_run, Event, accepted, refused, unreadable,
  unsettled, success, failure, step, run, decide, run-append,
}
use meteor_operator.Cre.Reconcile.{
  Api, DeepEqual, with_phase, run_key, reconcile_pipeline_run, refresh,
}
use meteor_operator.Tekton.{PipelineRun}
use meteor_operator.Cre.Build.{run_name}
use meteor_operator.Cre.Reconcile.Branches.{refresh_lem}
use meteor_operator.Cre.Reconcile.Results.{Strange, reconcile_pipeline_run-eq-panic_iff}
use meteor_operator.Cre.Reconcile.Ended.{NoError}
use meteor_operator.Cre.Reconcile.Facts.{facts, Records}
use meteor_operator.Cre.Reconcile.Refine.{event, event_of, seen_of, Refines, refresh-Refines}

-- No creation has been refused.
abbrev pub NoRefusal : List Event → Type 0
NoRefusal = All (λ e. e ≢ refused)

step_sound :
    (e : Event) (f : Facts)
    → e ≢ refused
    → ((step e f).creation_failed ≡ f.creation_failed)
      × ((step e f).image_invalid ≡ f.image_invalid)
step_sound accepted f n = (refl, refl)
step_sound refused f n = absurd (n refl)
step_sound unreadable f n = (refl, refl)
step_sound unsettled f n = (refl, refl)
step_sound (success import_run) f n = (refl, refl)
step_sound (success package_list_run) f n = (refl, refl)
step_sound (success other_run) f n = (refl, refl)
step_sound (failure import_run) f n = (refl, refl)
step_sound (failure package_list_run) f n = (refl, refl)
step_sound (failure other_run) f n = (refl, refl)

-- Without a refusal no error comes up.
run_sound :
    (es : List Event) (f : Facts)
    → NoRefusal es
    → ((run es f).creation_failed ≡ f.creation_failed)
      × ((run es f).image_invalid ≡ f.image_invalid)
run_sound [] f n = (refl, refl)
run_sound (e ∷ es) f (n, ns) =
    let (p, q) = run_sound es (step e f) ns in let (r, s) = step_sound e f n in (p ∙ r, q ∙ s)

-- The pipelines whose success is an image.
abbrev pub GivesImage : Kind → Type 0
GivesImage k = (k ≡ import_run) ⊎ (k ≡ package_list_run)

decide-success :
    (k : Kind) (f : Facts)
    → GivesImage k
    → f.creation_failed ≡ false
    → f.image_invalid ≡ false
    → decide (step (success k) f) ≡ succeeded
decide-success import_run f i c v = rw (c, v) refl
decide-success package_list_run f i c v = rw (c, v) (ground arith)
decide-success other_run f (inl i) c v = cc
decide-success other_run f (inr i) c v = cc

success≢unsettled : (k : Kind) → success k ≢ unsettled
success≢unsettled k h = cc

Outcome-returns : {A : Type 0} (m : Outcome A) → m ≢ panic → (a : A) × (m ≡ done a)
Outcome-returns (done a) n = (a, refl)
Outcome-returns panic n = absurd (n refl)

module _ {W : Type 0} (lib : Library) (api : Api W) (eq : DeepEqual) where
  -- The reconciliations of a resource, each with its event, and edits that leave the status alone.
  pub data Trace (a : CustomRuntimeEnvironment)
      : List Event → CustomRuntimeEnvironment → Type 0 where
    start : Trace a [] a
    reconciled :
        {es : List Event} {b c : CustomRuntimeEnvironment} (w : W) {w' : W}
        → Trace a es b
        → refresh lib api eq b w ≡ done (c, w')
        → Trace a (es ++ event lib api b w ∷ []) c
    edited :
        {es : List Event} {b c : CustomRuntimeEnvironment}
        → Trace a es b
        → c.status ≡ b.status
        → Trace a es c

  -- However often a resource is reconciled, against whatever states of the cluster, and edited in
  -- between, its conditions record what the machine comes to over the events of the
  -- reconciliations. They were keyed by type at the start and still are.
  pub Trace-Records :
      {a b : CustomRuntimeEnvironment} {es : List Event}
      → AreConditionOps lib.conditions
      → IsListMap a.status.conditions
      → Trace a es b
      → Records b.status.conditions (run es (facts a.status.conditions))
  Trace-Records laws keyed start = (keyed, refl)
  Trace-Records {a = a} laws keyed (reconciled {es = es} {b = b} w t found) =
      let (keyed_b, e) = Trace-Records laws keyed t in
      let (keyed_c, e') =
        (Ends-done (Refines lib api eq laws b w) _ (refresh-Refines lib api eq laws b w keyed_b)
          found).0 in
      (
        keyed_c,
        e'
            ∙ ap (step (event lib api b w)) e
            ∙ sym (run-append es (event lib api b w) (facts a.status.conditions)),
      )
  Trace-Records laws keyed (edited t same) = rw same (Trace-Records laws keyed t)

  Strange-unsettled :
      (cre : CustomRuntimeEnvironment) (r created : Result PipelineRun)
      → Strange lib api cre r
      → event_of r created ≡ unsettled
  Strange-unsettled cre (ok run) created (h, _) = ap (seen_of run) h
  Strange-unsettled cre (err e) created h = absurd h

  -- A run in sight that says something does not make the refresh panic.
  refresh-returns :
      (cre : CustomRuntimeEnvironment) (w : W)
      → event lib api cre w ≢ unsettled
      → (x : CustomRuntimeEnvironment × W) × (refresh lib api eq cre w ≡ done x)
  unfolding run_key run_name
  refresh-returns cre w n =
      let (seen, found) = Outcome-returns (reconcile_pipeline_run lib api (with_phase cre) w) (λ p.
        n (
          Strange-unsettled (with_phase cre) _ _
            ((reconcile_pipeline_run-eq-panic_iff lib api (with_phase cre) w).0 p))) in
      (_, refresh_lem lib api eq cre w found)

  -- A resource without an error, of which no creation has been refused since, gets the phase
  -- Succeeded from the reconciliation that sees that its import or package list build has
  -- succeeded, which does not panic, whatever the reconciliations and edits before it.
  pub Trace-succeeded :
      {a b : CustomRuntimeEnvironment} {es : List Event} (w : W) (k : Kind)
      → AreConditionOps lib.conditions
      → IsListMap a.status.conditions
      → NoError a.status.conditions
      → Trace a es b
      → NoRefusal es
      → event lib api b w ≡ success k
      → GivesImage k
      → (x : CustomRuntimeEnvironment × W) × (refresh lib api eq b w ≡ done x)
        × (x.0.status.phase ≡ succeeded)
  unfolding facts
  Trace-succeeded {a = a} {b = b} {es = es} w k laws keyed (sound, valid) t n e i =
      let (keyed_b, recorded) = Trace-Records laws keyed t in
      let (no_error, no_invalid) = run_sound es (facts a.status.conditions) n in
      let (x, found) = refresh-returns b w (λ u. success≢unsettled k (sym e ∙ u)) in
      let ((_, stepped), decided) =
        Ends-done (Refines lib api eq laws b w) _ (refresh-Refines lib api eq laws b w keyed_b)
          found in
      (
        x,
        found,
        decided
            ∙ ap decide (stepped ∙ ap (λ e. step e (facts b.status.conditions)) e)
            ∙ decide-success k (facts b.status.conditions) i
                (ap (λ (f : Facts). f.creation_failed) recorded ∙ no_error ∙ sound)
                (ap (λ (f : Facts). f.image_invalid) recorded ∙ no_invalid ∙ valid),
      )

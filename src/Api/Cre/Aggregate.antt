-- ===== src/Api/Cre/Aggregate.antt =====
-- What `AggregatePhase` computes, without its loop: which condition types are true decides.
pub mod Bag
use mathlib.Core.List.{Perm, Permᴰ}
use mathlib.Core.Logic.{∥∥₁_elim}
use meteor_operator.Prelude.{
  String, ◌≡◌, refl, sym, ap, ◌∙◌, ◌↔◌, Bool, true, false, ◌||◌, List, [], ◌∷◌, is_empty, any,
  arith, if◌then◌else◌,
}
use meteor_operator.Kube.Conditions.{Condition}
use meteor_operator.Api.Common.{Phase, pending, failed, running, succeeded}
use meteor_operator.Api.Cre.{
  CustomRuntimeEnvironment, pipeline_run_created, error_pipeline_run_create, image_import_ready,
  image_import_invalid, package_list_build_completed, pipeline_run_completed, is_true, Seen,
  nothing_seen, observe, conclude, scan, aggregate_phase,
}

-- Some condition of the type has the status "True".
abbrev pub holds : String → List Condition → Bool
holds t cs = any (is_true t) cs

-- The phase as a decision over condition types.
unfoldable pub phase_of : List Condition → Phase
phase_of cs =
    if is_empty cs
    then pending
    else if holds error_pipeline_run_create cs || holds image_import_invalid cs
    then failed
    else if holds pipeline_run_created cs
    then running
    else if holds pipeline_run_completed cs
    then (if holds image_import_ready cs || holds package_list_build_completed cs
        then succeeded
        else failed)
    else pending

-- The locals of the loop after it has run to its end.
abbrev seen_after : List Condition → Seen → Seen
seen_after cs s = record {
  pipeline_run_created = s.pipeline_run_created || holds pipeline_run_created cs;
  pipeline_run_successeded = s.pipeline_run_successeded || holds pipeline_run_completed cs;
  import_ready = s.import_ready || holds image_import_ready cs;
  package_list_build_completed =
      s.package_list_build_completed || holds package_list_build_completed cs;
}

or_assoc : (a b c : Bool) → ((a || b) || c) ≡ (a || (b || c))
or_assoc a b c = ground arith

or-false : (a : Bool) → (a || false) ≡ a
or-false a = ground arith

seen_after-nil : (s : Seen) → seen_after [] s ≡ s
seen_after-nil s = simp or-false

seen_after-cons :
    (c : Condition) (cs : List Condition) (s : Seen)
    → seen_after cs (observe c s) ≡ seen_after (c ∷ cs) s
unfolding observe
seen_after-cons c cs s = simp or_assoc

scan_lem :
    (cs : List Condition) (s : Seen)
    → scan cs s ≡ (
        if holds error_pipeline_run_create cs || holds image_import_invalid cs
        then failed
        else conclude (seen_after cs s))
unfolding scan
scan_lem [] s = ap conclude (sym (seen_after-nil s))
scan_lem (c ∷ cs) s = rw (scan_lem cs (observe c s), seen_after-cons c cs s) (ground arith)

-- For every resource `AggregatePhase` gives what `phase_of` decides for its conditions: the loop, its
-- early returns and the tests after it amount to that decision.
pub aggregate_phase_lem :
    (cre : CustomRuntimeEnvironment) → aggregate_phase cre ≡ phase_of cre.status.conditions
unfolding aggregate_phase phase_of
aggregate_phase_lem cre =
    rw (scan_lem cre.status.conditions nothing_seen) (unfold conclude in ground arith)

any-Permᴰ {ℓ} : {A : Type ℓ} (p : A → Bool) {xs ys : List A} → Permᴰ xs ys → any p xs ≡ any p ys
any-Permᴰ p Permᴰ.nil = refl
any-Permᴰ p (Permᴰ.cons {a = a} {b = b} {l₁ = l₁} {l₂ = l₂} e q) = cc (ap p e, any-Permᴰ p q)
any-Permᴰ p (Permᴰ.swap {a = a} {b = b} e f) = rw (← ap p e, ← ap p f) (ground arith)
any-Permᴰ p (Permᴰ.trans q r) = any-Permᴰ p q ∙ any-Permᴰ p r

is_empty-Permᴰ {ℓ} : {A : Type ℓ} {xs ys : List A} → Permᴰ xs ys → is_empty xs ≡ is_empty ys
is_empty-Permᴰ Permᴰ.nil = refl
is_empty-Permᴰ (Permᴰ.cons e q) = refl
is_empty-Permᴰ (Permᴰ.swap e f) = refl
is_empty-Permᴰ (Permᴰ.trans q r) = is_empty-Permᴰ q ∙ is_empty-Permᴰ r

pub phase_of-Permᴰ : {xs ys : List Condition} → Permᴰ xs ys → phase_of xs ≡ phase_of ys
unfolding phase_of
phase_of-Permᴰ q = cc (
  is_empty-Permᴰ q,
  any-Permᴰ (is_true error_pipeline_run_create) q,
  any-Permᴰ (is_true image_import_invalid) q,
  any-Permᴰ (is_true pipeline_run_created) q,
  any-Permᴰ (is_true pipeline_run_completed) q,
  any-Permᴰ (is_true image_import_ready) q,
  any-Permᴰ (is_true package_list_build_completed) q,
)

pub Phase-set : IsSet Phase
Phase-set = hlevel

-- The order in which the conditions stand in the status does not change the phase.
pub aggregate_phase-Perm :
    (a b : CustomRuntimeEnvironment)
    → Perm a.status.conditions b.status.conditions
    → aggregate_phase a ≡ aggregate_phase b
aggregate_phase-Perm a b q =
    rw (aggregate_phase_lem a, aggregate_phase_lem b) (∥∥₁_elim q (Phase-set _ _) phase_of-Permᴰ)

pub phase_of-eq-succeeded_iff :
    (cs : List Condition)
    → (phase_of cs ≡ succeeded) ↔ (
        (holds pipeline_run_completed cs ≡ true)
        × ((holds image_import_ready cs || holds package_list_build_completed cs) ≡ true)
        × (holds pipeline_run_created cs ≡ false)
        × (holds error_pipeline_run_create cs ≡ false)
        × (holds image_import_invalid cs ≡ false))
unfolding phase_of
phase_of-eq-succeeded_iff [] = ground arith
phase_of-eq-succeeded_iff (c ∷ cs) = ground arith

-- The phase is Succeeded exactly when the run has completed, an image is reported, and neither a
-- run in progress nor an error is.
pub aggregate_phase-eq-succeeded_iff :
    (cre : CustomRuntimeEnvironment)
    → let cs = cre.status.conditions in
      (aggregate_phase cre ≡ succeeded) ↔ (
        (holds pipeline_run_completed cs ≡ true)
        × ((holds image_import_ready cs || holds package_list_build_completed cs) ≡ true)
        × (holds pipeline_run_created cs ≡ false)
        × (holds error_pipeline_run_create cs ≡ false)
        × (holds image_import_invalid cs ≡ false))
aggregate_phase-eq-succeeded_iff cre =
    rw aggregate_phase_lem (phase_of-eq-succeeded_iff cre.status.conditions)

-- An error at the creation of the run decides the phase.
pub phase_of-failed :
    (cs : List Condition) → holds error_pipeline_run_create cs ≡ true → phase_of cs ≡ failed
unfolding phase_of
phase_of-failed [] h = cc
phase_of-failed (c ∷ cs) h = ground arith

pub phase_of-running :
    (cs : List Condition)
    → holds pipeline_run_created cs ≡ true
    → holds error_pipeline_run_create cs ≡ false
    → holds image_import_invalid cs ≡ false
    → phase_of cs ≡ running
unfolding phase_of
phase_of-running [] h p q = cc
phase_of-running (c ∷ cs) h p q = ground arith

-- A completed run without an image is a failure.
pub phase_of-without_image :
    (cs : List Condition)
    → holds pipeline_run_completed cs ≡ true
    → holds pipeline_run_created cs ≡ false
    → holds image_import_ready cs ≡ false
    → holds package_list_build_completed cs ≡ false
    → phase_of cs ≡ failed
unfolding phase_of
phase_of-without_image [] h p q r = cc
phase_of-without_image (c ∷ cs) h p q r = ground arith

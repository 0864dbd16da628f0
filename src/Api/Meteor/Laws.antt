-- ===== src/Api/Meteor/Laws.antt =====
-- The phase and the time to live of a Meteor.
use meteor_operator.Prelude.{
  ℕ, ◌*◌, ◌≤◌, ◌<◌, ◌≡◌, ◌≢◌, refl, sym, ap, ◌∙◌, ◌↔◌, Bool, true, false, not, ◌||◌, ◌&&◌, Option,
  none, some, List, [], ◌∷◌, ◌==◌, starts_with, is_empty, find, arith, All, Bool-cases, inl, inr,
  if◌then◌else◌,
}
use meteor_operator.Prelude.Int.{ℤ, pos, ◌+ℤ◌, ◌<ℤ◌, ◌≤ℤ◌, ltb_ℤ, mul_int64}
use meteor_operator.Kube.Meta.{Time}
use meteor_operator.Kube.Conditions.{Condition, condition_false}
use meteor_operator.Api.Common.{Phase, failed, building, succeeded}
use meteor_operator.Api.Meteor.{
  Meteor, second, get_expiration_timestamp, is_ttl_reached, scan, aggregate_phase,
}

-- A condition that lets the loop go on.
abbrev pub settled : Condition → Bool
settled c =
    not (c.status == condition_false)
    && (if starts_with c.type "PipelineRun"
        then c.reason == "Succeeded" || c.reason == "Completed"
        else c.reason == "Ready")

abbrev pub verdict : Option Condition → Phase
verdict none = succeeded
verdict (some c) = if c.status == condition_false then failed else building

scan_lem : (cs : List Condition) → scan cs ≡ verdict (find (λ c. not (settled c)) cs)
unfolding scan
scan_lem [] = refl
scan_lem (c ∷ cs) = ground (arith, scan_lem cs)

-- With no condition a Meteor is Building. Otherwise the first condition that is not settled decides
-- between Failed and Building, and the Meteor has Succeeded when all are settled.
pub aggregate_phase-verdict :
    (m : Meteor)
    → aggregate_phase m ≡ (
        if is_empty m.status.conditions
        then building
        else verdict (find (λ c. not (settled c)) m.status.conditions))
unfolding aggregate_phase
aggregate_phase-verdict m = ground (arith, scan_lem m.status.conditions)

find-eq-none_iff :
    (p : Condition → Bool) (cs : List Condition)
    → (find (λ c. not (p c)) cs ≡ none) ↔ All (λ c. p c ≡ true) cs
find-eq-none_iff p [] = (λ _. tt, λ _. refl)
find-eq-none_iff p (c ∷ cs) =
    let rest = find-eq-none_iff p cs in
    elim (Bool-cases (p c)) [
      | inl h ↦ rw h ((λ e. (refl, rest.0 e)), (λ (_, a). rest.1 a))
      | inr h ↦ rw h ((λ e. cc), (λ (e, _). cc))
    ]

verdict-unsettled : (c : Condition) → verdict (some c) ≢ succeeded
verdict-unsettled c e = elim (Bool-cases (c.status == condition_false)) [
  | inl h ↦ cc (ap (λ b. if b then failed else building) h)
  | inr h ↦ cc (ap (λ b. if b then failed else building) h)
]

verdict-eq-succeeded_iff : (o : Option Condition) → (verdict o ≡ succeeded) ↔ (o ≡ none)
verdict-eq-succeeded_iff none = (λ _. refl, λ _. refl)
verdict-eq-succeeded_iff (some c) = ((λ e. absurd (verdict-unsettled c e)), (λ e. cc))

scan-succeeded_iff : (cs : List Condition) → (scan cs ≡ succeeded) ↔ All (λ c. settled c ≡ true) cs
scan-succeeded_iff cs =
    let a = verdict-eq-succeeded_iff (find (λ c. not (settled c)) cs) in
    let b = find-eq-none_iff settled cs in
    ((λ e. b.0 (a.0 (sym (scan_lem cs) ∙ e))), (λ h. scan_lem cs ∙ a.1 (b.1 h)))

-- A Meteor has succeeded exactly when it has a condition and all its conditions are settled.
pub aggregate_phase-eq-succeeded_iff :
    (m : Meteor)
    → (aggregate_phase m ≡ succeeded)
      ↔ (is_empty m.status.conditions ≡ false) × All (λ c. settled c ≡ true) m.status.conditions
unfolding aggregate_phase
aggregate_phase-eq-succeeded_iff m =
    let rest = scan-succeeded_iff m.status.conditions in
    elim (Bool-cases (is_empty m.status.conditions)) [
      | inl h ↦ rw h ((λ e. cc), (λ (e, _). cc))
      | inr h ↦ rw h ((λ e. (refl, rest.0 e)), (λ (_, a). rest.1 a))
    ]

-- The largest number of seconds that a `time.Duration` can hold.
abbrev pub max_ttl : ℕ
max_ttl = 9223372036

mul_int64-fits : (n : ℕ) → n ≤ max_ttl → mul_int64 (pos n) second ≡ pos (n * second)
unfolding mul_int64
mul_int64-fits n h = ground arith

-- A time to live from 1 up to `max_ttl` is reached exactly when that many seconds have passed since
-- the creation.
pub is_ttl_reached_iff :
    (m : Meteor) (now : Time) (n : ℕ)
    → m.spec.ttl ≡ pos n
    → 0 < n
    → n ≤ max_ttl
    → (is_ttl_reached m now ≡ true) ↔ (m.meta.creation_timestamp +ℤ pos (n * second) <ℤ now)
unfolding is_ttl_reached get_expiration_timestamp
is_ttl_reached_iff m now n e p h = rw (e, mul_int64-fits n h) (ground arith)

-- A time to live of 0 is never reached.
pub is_ttl_reached-zero :
    (m : Meteor) (now : Time) → m.spec.ttl ≡ pos 0 → is_ttl_reached m now ≡ false
unfolding is_ttl_reached
is_ttl_reached-zero m now e = rw e

mul_int64-wraps : (n : ℕ) → max_ttl < n → n ≤ 2 * max_ttl → mul_int64 (pos n) second <ℤ pos 0
unfolding mul_int64
mul_int64-wraps n p h = ground arith

add_negative : (t d now : ℤ) → d <ℤ pos 0 → t ≤ℤ now → ltb_ℤ (t +ℤ d) now ≡ true
unfolding ◌+ℤ◌
add_negative t d now h k = ground arith

-- A time to live above `max_ttl`, up to twice that, wraps around to a negative duration: it counts
-- as reached at every time from the creation on.
pub is_ttl_reached-wraps :
    (m : Meteor) (now : Time) (n : ℕ)
    → m.spec.ttl ≡ pos n
    → max_ttl < n
    → n ≤ 2 * max_ttl
    → m.meta.creation_timestamp ≤ℤ now
    → is_ttl_reached m now ≡ true
unfolding is_ttl_reached get_expiration_timestamp
is_ttl_reached-wraps m now n e p h k = rw e (
    ground (
      arith,
      add_negative m.meta.creation_timestamp (mul_int64 (pos n) second) now (mul_int64-wraps n p h),
    ))

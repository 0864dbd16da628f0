-- ===== src/Api/Meteor.antt =====
-- api/v1alpha1/meteor_types.go: the resource, its phase and its time to live.
pub mod Laws
use meteor_operator.Prelude.{
  ℕ, String, Bool, true, false, not, ◌||◌, some, List, [], ◌∷◌, ◌==◌, starts_with, is_empty,
  if◌then◌else◌,
}
use meteor_operator.Prelude.Int.{ℤ, pos, negsuc, ◌+ℤ◌, ◌-ℤ◌, ltb_ℤ, eqb_ℤ, mul_int64}
use meteor_operator.Kube.Meta.{Time, TypeMeta, ObjectMeta}
use meteor_operator.Kube.Conditions.{Condition, condition_false}
use meteor_operator.Api.Common.{
  Phase, failed, building, succeeded, PipelineResult, ComponentStatus, NamespacedOwnerReference,
}

pub record MeteorSpec : Type 0 where
  pub url : String
  pub ref : String
  pub ttl : ℤ  -- int64
  pub pipelines : List String

pub record MeteorStatus : Type 0 where
  pub phase : String
  pub conditions : List Condition
  pub pipelines : List PipelineResult
  pub expiration_timestamp : Time
  pub observed_generation : ℕ
  pub comas : List NamespacedOwnerReference
  pub stage : ComponentStatus

pub record Meteor : Type 0 where
  pub type_meta : TypeMeta
  pub meta : ObjectMeta
  pub spec : MeteorSpec
  pub status : MeteorStatus

-- The nanoseconds of `time.Second`.
abbrev pub second : ℕ
second = 1000000000

-- `time.Duration(m.Spec.TTL) * time.Second` is a product of int64 values.
unfoldable pub get_expiration_timestamp : Meteor → Time
get_expiration_timestamp m = m.meta.creation_timestamp +ℤ mul_int64 m.spec.ttl second

-- The clock is an argument.
unfoldable pub is_ttl_reached : Meteor → (now : Time) → Bool
is_ttl_reached m now =
    if eqb_ℤ m.spec.ttl (pos 0) then false else ltb_ℤ (get_expiration_timestamp m) now

abbrev max_duration : ℤ
max_duration = pos 9223372036854775807

abbrev min_duration : ℤ
min_duration = negsuc 9223372036854775807

-- `t.Sub(u)`, which stops at the ends of int64
abbrev sub_time : Time → Time → ℤ
sub_time t u =
    if ltb_ℤ max_duration (t -ℤ u)
    then max_duration
    else if ltb_ℤ (t -ℤ u) min_duration
    then min_duration
    else t -ℤ u

-- `time.Until` of the expiration, in nanoseconds; the division into float seconds is left out.
unfoldable pub get_remaining_ttl : Meteor → (now : Time) → ℤ
get_remaining_ttl m now = sub_time (get_expiration_timestamp m) now

-- The loop over the conditions: `continue` goes on with the rest.
scan : List Condition → Phase
scan [] = succeeded
scan (c ∷ cs) =
    let rest = scan cs in
    if c.status == condition_false
    then failed
    else if starts_with c.type "PipelineRun"
    then (if c.reason == "Succeeded" || c.reason == "Completed" then rest else building)
    else if not (c.reason == "Ready")
    then building
    else rest

unfoldable pub aggregate_phase : Meteor → Phase
unfolding scan
aggregate_phase m = if is_empty m.status.conditions then building else scan m.status.conditions

-- The pointers are to fresh variables that hold the two Booleans.
unfoldable pub get_reference : Meteor → Bool → NamespacedOwnerReference
get_reference m is_controller = record {
  reference = record {
    api_version = m.type_meta.api_version;
    kind = m.type_meta.kind;
    name = m.meta.name;
    uid = m.meta.uid;
    controller = some is_controller;
    block_owner_deletion = some true;
  };
  namespace = m.meta.namespace;
}

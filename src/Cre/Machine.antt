-- ===== src/Cre/Machine.antt =====
-- What the life of a CustomRuntimeEnvironment comes to, without conditions, clients and runs: six
-- facts, what a reconciliation sees, and the phase.
use meteor_operator.Prelude.{◌≡◌, refl, Bool, true, false, ◌||◌, List, [], ◌∷◌, ◌++◌, if◌then◌else◌}
use meteor_operator.Api.Common.{Phase, pending, failed, running, succeeded}

-- What is on record for a resource.
pub record Facts : Type 0 where
  pub creation_failed : Bool
  pub image_invalid : Bool
  pub created : Bool
  pub completed : Bool
  pub imported : Bool
  pub built : Bool

-- The pipelines, as far as their results differ.
pub data Kind : Type 0 where
  import_run : Kind
  package_list_run : Kind
  other_run : Kind

-- What one reconciliation meets.
pub data Event : Type 0 where
  accepted : Event
  refused : Event
  unreadable : Event
  unsettled : Event
  success : Kind → Event
  failure : Kind → Event

abbrev pub record_success : Kind → Facts → Facts
record_success import_run f = record f { imported = true }
record_success package_list_run f = record f { built = true }
record_success other_run f = f

abbrev pub record_failure : Kind → Facts → Facts
record_failure import_run f = record f { imported = false }
record_failure package_list_run f = record f { built = false }
record_failure other_run f = f

abbrev pub step : Event → Facts → Facts
step accepted f = record f { created = true }
step refused f = record f { creation_failed = true; created = true }
step unreadable f = f
step unsettled f = f
step (success k) f = record_success k (record f { completed = true; created = false })
step (failure k) f = record_failure k (record f { completed = true; created = false })

-- The first event first.
abbrev pub run : List Event → Facts → Facts
run [] f = f
run (e ∷ es) f = run es (step e f)

abbrev pub decide : Facts → Phase
decide f =
    if f.creation_failed || f.image_invalid
    then failed
    else if f.created
    then running
    else if f.completed
    then (if f.imported || f.built then succeeded else failed)
    else pending

pub run-append :
    (es : List Event) (e : Event) (f : Facts) → run (es ++ e ∷ []) f ≡ step e (run es f)
run-append [] e f = refl
run-append (d ∷ es) e f = run-append es e (step d f)

-- ===== src/Shower/Ensure.antt =====
-- The course that the reconcilers of controllers/shower share: the object is fetched, created where it
-- is missing, and updated where it differs from what is wanted.
pub mod Again
pub mod Writes
use meteor_operator.Prelude.{Option, none, some, if◌then◌else◌}
use meteor_operator.Kube.Meta.{NamespacedName}
use meteor_operator.Kube.Client.{Error, Result, ok, err, Resource}

-- How it ends: with an error of one of the three calls, with a new object, or with the object that
-- was found, updated or not.
pub data Ensured (T : Type 0) : Type 0 where
  get_failed : Error → Ensured T
  create_failed : Error → Ensured T
  update_failed : Error → Ensured T
  created : Ensured T
  kept : T → Ensured T

abbrev pub error_of : {T : Type 0} → Ensured T → Option Error
error_of (get_failed e) = some e
error_of (create_failed e) = some e
error_of (update_failed e) = some e
error_of created = none
error_of (kept _) = none

module _ {W T : Type 0} (resource : Resource W T) where
  abbrev pub after_create : Result T × W → Ensured T × W
  after_create (ok _, w) = (created, w)
  after_create (err e, w) = (create_failed e, w)

  abbrev pub after_update : Result T × W → Ensured T × W
  after_update (ok y, w) = (kept y, w)
  after_update (err e, w) = (update_failed e, w)

  -- The object with the changes that it needs, if any.
  abbrev pub amend : T → Option T → W → Ensured T × W
  amend x none w = (kept x, w)
  amend x (some y) w = after_update (resource.update y w)

  abbrev pub after_get : T → (T → Option T) → Result T × W → Ensured T × W
  after_get fresh change (ok x, w) = amend x (change x) w
  after_get fresh change (err e, w) =
      if e.not_found then after_create (resource.create fresh w) else (get_failed e, w)

  unfoldable pub ensure : NamespacedName → (fresh : T) → (change : T → Option T) → W → Ensured T × W
  ensure key fresh change w = after_get fresh change (resource.get key w)

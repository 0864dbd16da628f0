-- ===== src/Shower/Ensure/Writes.antt =====
-- What the calls of a reconciler leave true of the cluster, when it may only write certain objects.
use meteor_operator.Prelude.{◌≡◌, refl, Option, none, some, Bool-cases, inl, inr}
use meteor_operator.Kube.Meta.{NamespacedName}
use meteor_operator.Kube.Client.{Result, ok, err, Resource}
use meteor_operator.Shower.Ensure.{after_create, after_update, amend, after_get, ensure}

-- `P` is still true of the cluster after a read, and after a write of an object that may be written.
pub record Keeps {W T : Type 0} (P : W → Type 0) (may_write : T → Type 0) (R : Resource W T)
    : Type 0 where
  pub get : (k : NamespacedName) (w : W) → P w → P (R.get k w).1
  pub create : (x : T) (w : W) → may_write x → P w → P (R.create x w).1
  pub update : (x : T) (w : W) → may_write x → P w → P (R.update x w).1

module _ {W T : Type 0} (P : W → Type 0) (may_write : T → Type 0) (R : Resource W T)
    (K : Keeps P may_write R) where
  pub after_create-keeps : (answer : Result T × W) → P answer.1 → P (after_create R answer).1
  after_create-keeps (ok _, w) p = p
  after_create-keeps (err _, w) p = p

  pub after_update-keeps : (answer : Result T × W) → P answer.1 → P (after_update R answer).1
  after_update-keeps (ok _, w) p = p
  after_update-keeps (err _, w) p = p

  amend-keeps :
      (x : T) (changed : Option T) (w : W)
      → ((y : T) → changed ≡ some y → may_write y)
      → P w
      → P (amend R x changed w).1
  amend-keeps x none w may p = p
  amend-keeps x (some y) w may p = after_update-keeps (R.update y w) (K.update y w (may y refl) p)

  got-keeps :
      (fresh : T) (change : T → Option T) (answer : Result T × W)
      → may_write fresh
      → ((x y : T) → answer.0 ≡ ok x → change x ≡ some y → may_write y)
      → P answer.1
      → P (after_get R fresh change answer).1
  got-keeps fresh change (ok x, w) new old p = amend-keeps x (change x) w (λ y. old x y refl) p
  got-keeps fresh change (err e, w) new old p = elim (Bool-cases e.not_found) [
    | inl h ↦ rw h (after_create-keeps (R.create fresh w) (K.create fresh w new p))
    | inr h ↦ rw h p
  ]

  pub ensure-keeps :
      (key : NamespacedName) (fresh : T) (change : T → Option T) (w : W)
      → may_write fresh
      → ((x y : T) → (R.get key w).0 ≡ ok x → change x ≡ some y → may_write y)
      → P w
      → P (ensure R key fresh change w).1
  unfolding ensure
  ensure-keeps key fresh change w new old p =
      got-keeps fresh change (R.get key w) new old (K.get key w p)

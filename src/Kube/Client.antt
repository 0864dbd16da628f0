-- ===== src/Kube/Client.antt =====
-- The API client of controller-runtime, for one kind of resource at a time, over an abstract
-- cluster state `W`: each call may read or change the cluster, and may fail.
use mathlib.Core.Path.{subst}
use meteor_operator.Prelude.{ℕ, String, ◌≡◌, refl, Bool, true, false, if◌then◌else◌, Option, List}
use meteor_operator.Kube.Meta.{NamespacedName}

-- An `error`, as far as the operator looks into it: `errors.IsNotFound(err)` and `err.Error()`.
pub record Error : Type 0 where
  pub not_found : Bool
  pub message : String

pub data Result {ℓ} (A : Type ℓ) : Type ℓ where
  ok : A → Result A
  err : Error → Result A

pub ok-injective {ℓ} : {A : Type ℓ} {a b : A} → ok a ≡ ok b → a ≡ b
ok-injective h = cc

-- `create`, `update` and `update_status` return the object as the server sent it back.
pub record Resource (W T : Type 0) : Type 0 where
  pub get : NamespacedName → W → Result T × W
  pub list : W → Result (List T) × W
  pub create : T → W → Result T × W
  pub update : T → W → Result T × W
  pub update_status : T → W → Result T × W
  pub delete : T → W → Option Error × W

-- A Go computation: it returns, or it panics (nil dereference, index out of range).
pub data Outcome {ℓ} (A : Type ℓ) : Type ℓ where
  done : A → Outcome A
  panic : Outcome A

infixl 5 ◌>>=◌
abbrev pub ◌>>=◌ {ℓ κ} : {A : Type ℓ} {B : Type κ} → Outcome A → (A → Outcome B) → Outcome B
done a >>= f = f a
panic >>= f = panic

pub done-injective {ℓ} : {A : Type ℓ} {a b : A} → done a ≡ done b → a ≡ b
done-injective h = cc

-- Inversion of a computation that returned.
pub >>=-eq-done {ℓ κ} :
    {A : Type ℓ} {B : Type κ} (m : Outcome A) (f : A → Outcome B) {b : B}
    → (m >>= f) ≡ done b
    → (a : A) × (m ≡ done a) × (f a ≡ done b)
>>=-eq-done (done a) f h = (a, refl, h)
>>=-eq-done panic f h = cc

-- `ctrl.Result`; the delay is in seconds.
pub record Requeue : Type 0 where
  pub requeue : Bool
  pub requeue_after : ℕ

abbrev pub no_requeue : Requeue
no_requeue = record { requeue = Bool.false; requeue_after = 0 }

abbrev pub requeue_now : Requeue
requeue_now = record { requeue = Bool.true; requeue_after = 0 }

-- Whatever a computation returns satisfies `P`.
abbrev pub Ends {ℓ κ} : {A : Type ℓ} → (A → Type κ) → Outcome A → Type κ
Ends P (done a) = P a
Ends P panic = Unit

pub Ends-done {ℓ κ} :
    {A : Type ℓ} (P : A → Type κ) (m : Outcome A) {a : A} → Ends P m → m ≡ done a → P a
Ends-done P (done b) {a} h e = subst P (done-injective e) h
Ends-done P panic h e = cc

pub Ends-of {ℓ κ} :
    {A : Type ℓ} (P : A → Type κ) (m : Outcome A) → ((a : A) → m ≡ done a → P a) → Ends P m
Ends-of P (done b) h = h b refl
Ends-of P panic h = tt

pub Ends-if {ℓ κ} :
    {A : Type ℓ} (P : A → Type κ) (b : Bool) (m n : Outcome A)
    → Ends P m
    → Ends P n
    → Ends P (if b then m else n)
Ends-if P true m n hm hn = hm
Ends-if P false m n hm hn = hn

pub Ends-bind {ℓ κ μ} :
    {A : Type ℓ} {B : Type κ} (P : B → Type μ) (m : Outcome A) (f : A → Outcome B)
    → ((a : A) → m ≡ done a → Ends P (f a))
    → Ends P (m >>= f)
Ends-bind P (done a) f h = h a refl
Ends-bind P panic f h = tt

-- The computation returns, and what it returns satisfies `P`.
abbrev pub Returns {ℓ} : {A : Type ℓ} → (A → Type 0) → Outcome A → Type 0
Returns P (done a) = P a
Returns P panic = ⊥

pub Returns-if {ℓ} :
    {A : Type ℓ} (P : A → Type 0) (b : Bool) (m n : Outcome A)
    → Returns P m
    → Returns P n
    → Returns P (if b then m else n)
Returns-if P true m n hm hn = hm
Returns-if P false m n hm hn = hn

pub Returns-bind {ℓ κ} :
    {A : Type ℓ} {B : Type κ} (Q : A → Type 0) (P : B → Type 0) (m : Outcome A) (f : A → Outcome B)
    → Returns Q m
    → ((a : A) → Q a → Returns P (f a))
    → Returns P (m >>= f)
Returns-bind Q P (done a) f q h = h a q
Returns-bind Q P panic f q h = absurd q

pub Returns-map {ℓ} :
    {A : Type ℓ} (Q P : A → Type 0) (m : Outcome A)
    → Returns Q m
    → ((a : A) → Q a → P a)
    → Returns P m
Returns-map Q P (done a) q h = h a q
Returns-map Q P panic q h = q

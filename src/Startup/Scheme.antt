-- ===== src/Startup/Scheme.antt =====
-- main.go, lines 48 to 58: the groups of kinds that the operator registers.
use Prim.Native.Nat.{ℕ}
use meteor_operator.Prelude.{Bool, Option, none, some, ◌≡◌, ◌||◌, eqb}
use meteor_operator.Kube.Client.{Error, Outcome, done, panic, ◌>>=◌}
use meteor_operator.Startup.Config.{MeteorConfig}

-- The packages whose `AddToScheme` is called.
pub data Group : Type 0 where
  client_go : Group
  meteor : Group
  pipeline : Group
  route : Group
  monitoring : Group

abbrev pub code : Group → ℕ
code client_go = 0
code meteor = 1
code pipeline = 2
code route = 3
code monitoring = 4

abbrev pub same_group : Group → Group → Bool
same_group g h = eqb (code g) (code h)

-- `runtime.Scheme` with the `AddToScheme` functions, which register the kinds of one group; `knows`
-- is `Recognizes` for the kinds of a group.
pub record Registry (S : Type 0) : Type 0 where
  pub new_scheme : S
  pub add_to_scheme : Group → S → Option Error × S
  pub knows : S → Group → Bool

-- A new scheme knows nothing, and `AddToScheme` adds its own group.
pub record RegistryLaws {S : Type 0} (R : Registry S) : Type 0 where
  pub new-knows : (g : Group) → R.knows R.new_scheme g ≡ Bool.false
  pub add-knows :
      (g h : Group) (s s' : S)
      → R.add_to_scheme g s ≡ (none, s')
      → R.knows s' h ≡ (same_group g h || R.knows s h)

-- `utilruntime.Must`
abbrev pub must : {S : Type 0} → Option Error × S → Outcome S
must (none, s) = done s
must (some _, s) = panic

module _ {S : Type 0} (R : Registry S) where
  abbrev pub register : Group → S → Outcome S
  register g s = must (R.add_to_scheme g s)

  -- `if ctrlConfig.Spec.EnableShower`
  abbrev pub register_route : Bool → S → Outcome S
  register_route Bool.true s = register route s
  register_route Bool.false s = done s

  -- `init`, with the value of `ctrlConfig` at that moment.
  unfoldable pub init : {C : Type 0} → MeteorConfig C → Outcome S
  init config =
      register client_go R.new_scheme
      >>= register meteor
      >>= register pipeline
      >>= register_route config.spec.enable_shower
      >>= register monitoring

-- ===== src/Operator/Life.antt =====
-- What holds of the cluster however the three controllers take turns.
use mathlib.Core.Path.{subst}
use meteor_operator.Prelude.{String, ◌≡◌, refl, List, Bool-cases, inl, inr}
use meteor_operator.Kube.Meta.{NamespacedName}
use meteor_operator.Kube.Client.{Result, ok, err, Ends, Ends-done}
use meteor_operator.Kube.Library.{KeepsKey}
use meteor_operator.Api.Shower.{Shower}
use meteor_operator.Shower.Objects.{Role, RoleBinding}
use meteor_operator.Shower.Ensure.Writes.{Keeps}
use meteor_operator.Shower.Actions.Confined.{
  externals_of, IsGrantOf, IsAccessOf, AnswersInPlace, Undisturbed,
}
use meteor_operator.Shower.Reconcile.{on_shower, reconcile}
use meteor_operator.Shower.Reconcile.Confined.{reconcile-confined}
use meteor_operator.Meteor.Permits as MeteorPermits
use meteor_operator.Meteor.State as Meteors
use meteor_operator.Meteor.Reconcile.Confined.{reconcile-writes}
use meteor_operator.Cre.Reconcile.Confined as CreConfined
use meteor_operator.Operator.{Setup, Process, Reaches, start, meteor, shower, cre, restart, edit}

-- What the server and the library are taken to do: the controller reference leaves names alone, and
-- a request for an object is answered with that object.
pub record Serves {W : Type 0} (setup : Setup W) : Type 0 where
  pub keeps_key : KeepsKey setup.library
  pub meteors_named : MeteorPermits.KeepsName setup.meteors
  pub roles_in_place : AnswersInPlace (λ (x : Role). x.meta) setup.showers.roles
  pub bindings_in_place : AnswersInPlace (λ (x : RoleBinding). x.meta) setup.showers.role_bindings

-- `P` is still true of the cluster after every call that one of the controllers may make, and after
-- the edits of others.
pub record Allows {W : Type 0} (P : W → Type 0) (setup : Setup W) (Edited : W → W → Type 0)
    : Type 0 where
  pub meteor_get : (k : NamespacedName) (w : W) → P w → P (setup.meteors.meteors.get k w).1
  pub meteors : (owner namespace : String) → MeteorPermits.Permits P setup.meteors owner namespace
  pub roles :
      (home : String) (externals : List String)
      → Keeps P (IsGrantOf setup.groups home externals) setup.showers.roles
  pub bindings :
      (home : String) (externals : List String)
      → Keeps P (IsAccessOf home externals) setup.showers.role_bindings
  pub showers : Undisturbed P setup.showers
  pub cres : CreConfined.Permits P setup.cres
  pub edited : (w w' : W) → Edited w w' → P w → P w'

module _ {W : Type 0} (setup : Setup W) (Edited : W → W → Type 0) (serves : Serves setup)
    (P : W → Type 0) (allows : Allows P setup Edited) where
  unserved-keeps :
      (req : NamespacedName) (answer : Result Shower × W) (w : W)
      → setup.showers.showers.get req w ≡ answer
      → P w
      → P answer.1
      → Ends (λ x. P x.1) (on_shower setup.library setup.groups setup.showers req answer)
  unfolding reconcile
  unserved-keeps req (err e, w') w got p p' = elim (Bool-cases e.not_found) [
    | inl h ↦ rw h p'
    | inr h ↦ rw h p'
  ]
  unserved-keeps req (ok s, w') w got p p' =
      subst (λ a. Ends (λ x. P x.1) (on_shower setup.library setup.groups setup.showers req a)) got
        (reconcile-confined setup.library setup.groups setup.showers P req w w' s serves.keeps_key
          serves.roles_in_place serves.bindings_in_place
          (allows.roles req.namespace (externals_of s))
          (allows.bindings req.namespace (externals_of s)) allows.showers got p)

  shower-keeps :
      (req : NamespacedName) (w : W)
      → P w
      → Ends (λ x. P x.1) (reconcile setup.library setup.groups setup.showers req w)
  unfolding reconcile
  shower-keeps req w p =
      unserved-keeps req (setup.showers.showers.get req w) w refl p
        (allows.showers.shower_get req w p)

  -- However the reconciliations of Meteors, Showers and CustomRuntimeEnvironments, the restarts of
  -- the process and the edits of others follow each other: a statement on the cluster that each call
  -- that a controller may make keeps, and each edit, stays true, until a reconciliation panics. The
  -- calls are reads and status updates; writes and deletions of the Meteor of the reconciliation, and
  -- the creation of what bears its name; deletions of Comas; writes of the Roles and RoleBindings of a
  -- Shower and of its other objects; and the creation of the run of a CustomRuntimeEnvironment. The
  -- controller reference leaves names alone, and the server answers a request for a Role, a
  -- RoleBinding or a write of a Meteor with that object.
  pub Reaches-keeps : {a b : Process W} → Reaches setup Edited a b → P a.world → P b.world
  Reaches-keeps start p = p
  Reaches-keeps (meteor {b = b} req now t e) p =
      Ends-done (λ (reply : Meteors.Reply W). P reply.world) _
        (reconcile-writes setup.library serves.keeps_key setup.json setup.meteors
          serves.meteors_named P req now b.reconciler b.world
          (λ m got. allows.meteors m.meta.name req.namespace)
          (allows.meteor_get req b.world (Reaches-keeps t p)))
        e
  Reaches-keeps (shower {b = b} req t e) p =
      Ends-done (λ x. P x.1) _ (shower-keeps req b.world (Reaches-keeps t p)) e
  Reaches-keeps (cre {b = b} req t e) p =
      Ends-done (λ x. P x.1) _
        (CreConfined.reconcile-keeps setup.library serves.keeps_key setup.cres setup.deep_equal P
          allows.cres req b.world (Reaches-keeps t p))
        e
  Reaches-keeps (restart m t) p = Reaches-keeps t p
  Reaches-keeps (edit {b = b} {w = w} t e) p = allows.edited b.world w e (Reaches-keeps t p)

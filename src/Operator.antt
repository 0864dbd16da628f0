-- ===== src/Operator.antt =====
-- The process that main.go starts: the three controllers on one cluster, one reconciliation after
-- another. A reconciliation that panics ends the process, and a new one starts without a Shower.
-- What others do to the cluster while a reconciliation runs is part of its calls, which are any
-- functions on the cluster.
pub mod Life
pub mod Ownership
mod Tests
use meteor_operator.Prelude.{◌≡◌, Option, none, []}
use meteor_operator.Kube.Meta.{Time, NamespacedName}
use meteor_operator.Kube.Client.{Error, Requeue, done}
use meteor_operator.Kube.Library.{Library}
use meteor_operator.Api.Meteor.{Meteor}
use meteor_operator.Meteor.State as Meteors
use meteor_operator.Meteor.Build.{Json}
use meteor_operator.Meteor.Reconcile as MeteorController
use meteor_operator.Shower.Desired.{Groups}
use meteor_operator.Shower.Actions as Showers
use meteor_operator.Shower.Reconcile as ShowerController
use meteor_operator.Cre.Reconcile as Cres

-- `mgr.GetClient()`, as the three controllers use it, and the functions of other repositories.
pub record Setup (W : Type 0) : Type 0 where
  pub library : Library
  pub json : Json
  pub groups : Groups
  pub deep_equal : Cres.DeepEqual
  pub meteors : Meteors.Api W
  pub showers : Showers.Api W
  pub cres : Cres.Api W

-- What the reconciler of Meteors keeps, and the cluster.
pub record Process (W : Type 0) : Type 0 where
  pub reconciler : Meteors.Reconciler
  pub world : W

-- The reconciler of a new process.
abbrev pub new_reconciler : Meteor → Meteors.Reconciler
new_reconciler m = record { meteor = m; shower = none; samples = [] }

module _ {W : Type 0} (setup : Setup W) (Edited : W → W → Type 0) where
  -- The reconciliations, in any order and for any requests, the restarts, and the edits of others.
  pub data Reaches (a : Process W) : Process W → Type 0 where
    start : Reaches a a
    meteor :
        {b : Process W} (req : NamespacedName) (now : Time) {reply : Meteors.Reply W}
        → Reaches a b
        → MeteorController.reconcile setup.library setup.json setup.meteors req now b.reconciler
            b.world
          ≡ done reply
        → Reaches a (record { reconciler = reply.reconciler; world = reply.world })
    shower :
        {b : Process W} (req : NamespacedName) {answer : Requeue × Option Error} {w : W}
        → Reaches a b
        → ShowerController.reconcile setup.library setup.groups setup.showers req b.world
          ≡ done (answer, w)
        → Reaches a (record { reconciler = b.reconciler; world = w })
    cre :
        {b : Process W} (req : NamespacedName) {answer : Requeue × Option Error} {w : W}
        → Reaches a b
        → Cres.reconcile setup.library setup.cres setup.deep_equal req b.world ≡ done (answer, w)
        → Reaches a (record { reconciler = b.reconciler; world = w })
    restart :
        {b : Process W} (m : Meteor)
        → Reaches a b
        → Reaches a (record { reconciler = new_reconciler m; world = b.world })
    edit :
        {b : Process W} {w : W}
        → Reaches a b
        → Edited b.world w
        → Reaches a (record { reconciler = b.reconciler; world = w })

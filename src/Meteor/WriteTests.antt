-- ===== src/Meteor/WriteTests.antt =====
-- What a reconciliation of a sample Meteor writes to a cluster that holds at most one run.
use mathlib.Core.Path.{subst}
use meteor_operator.Prelude.{refl, sym, ap, none, some}
use meteor_operator.Prelude.Int.{pos}
use meteor_operator.Kube.Meta.{NamespacedName}
use meteor_operator.Kube.Client.{ok-injective, Ends}
use meteor_operator.Kube.Doubles.{plain_library, constant}
use meteor_operator.Api.Meteor.{Meteor}
use meteor_operator.Meteor.State.{Api, Reply}
use meteor_operator.Meteor.Permits.{IsRunOf, Permits, KeepsName}
use meteor_operator.Meteor.Samples.{World, reconciler, api, json, plain, shower, two}
use meteor_operator.Meteor.Reconcile.{reconcile}
use meteor_operator.Meteor.Reconcile.Confined.{reconcile-writes}

-- The Meteor is answered as it was written.
abbrev loyal : Api World
loyal = record (api plain two) { meteors = constant Meteor plain }

loyal-KeepsName : KeepsName loyal
loyal-KeepsName = record {
  update-name =
      λ m m' w w' h. ap (λ (x : Meteor). x.meta.name) (sym (ok-injective (ap (λ p. p.0) h)));
  status-name =
      λ m m' w w' h. ap (λ (x : Meteor). x.meta.name) (sym (ok-injective (ap (λ p. p.0) h)));
}

-- The run, where there is one, is a run of the Meteor "demo".
abbrev IsClean : World → Type 0
IsClean none = Unit
IsClean (some run) = IsRunOf "demo" "default" run

loyal-Permits : Permits IsClean loyal "demo" "default"
loyal-Permits = record {
  meteor_update = λ m w n p. p;
  meteor_status = λ m w n p. p;
  meteor_delete = λ m w n p. p;
  shower_list = λ w p. p;
  coma_get = λ k w p. p;
  coma_create = λ x w is p. p;
  coma_status = λ x w p. p;
  coma_delete = λ x w p. p;
  run_get = λ k w p. p;
  run_create = λ x w is p. is;
}

abbrev request : NamespacedName
request = record { name = "demo"; namespace = "default" }

reconcile-writes_example :
    Ends
      (λ (reply : Reply World). IsClean reply.world)
      (reconcile plain_library json loyal request
        (pos 5000)
        (reconciler plain (some (shower "one")))
        none)
reconcile-writes_example =
    reconcile-writes plain_library (λ kind owner controlled. refl) json loyal loyal-KeepsName
      IsClean request (pos 5000) (reconciler plain (some (shower "one"))) none
      (λ m h.
        subst (λ (x : Meteor). Permits IsClean loyal x.meta.name "default") (ok-injective h)
          loyal-Permits)
      tt

-- ===== src/Shower/ClusterTests.antt =====
-- A Shower that is reconciled twice in a cluster that holds all its objects.
use meteor_operator.Prelude.{
  ℕ, String, ◌≡◌, refl, Bool, true, false, not, ◌&&◌, eqb, arith, map, Option, none, some, [], ◌∷◌,
  sprintf,
}
use meteor_operator.Kube.Meta.{NamespacedName}
use meteor_operator.Kube.Client.{Error, Outcome, done, panic, Requeue, no_requeue, Returns}
use meteor_operator.Kube.Doubles.{plain_library}
use meteor_operator.Api.Shower.{Shower}
use meteor_operator.Meteor.Samples.{shower}
use meteor_operator.Shower.Desired.{Groups, shower_name, pipeline_name, external_name}
use meteor_operator.Shower.Ensure.{ensure}
use meteor_operator.Shower.Route.{ensure_route, after_get_route}
use meteor_operator.Shower.Actions.{Api, note_deployment, note_route}
use meteor_operator.Shower.Reconcile.Settle.{Rests, reconcile-Rests}
use meteor_operator.Shower.Reconcile.{reconcile, refresh_status, run_actions}
use meteor_operator.Shower.Tasks.{Kind, place_of}
use meteor_operator.Shower.Tasks.Cluster.Lists.{World, api_of, empty}
use meteor_operator.Shower.Tasks.Cluster.Meets.{cluster}

abbrev groups : Groups
groups = record {
  tekton = "tekton.dev";
  image = "image.openshift.io";
  route = "route.openshift.io";
  apps = "apps";
  rbac = "rbac.authorization.k8s.io";
}

abbrev one : Shower
one = record (shower "one") {
  spec = record (shower "one").spec {
    external_services = record { name = "thoth"; namespace = "thoth-prod"; url = "" } ∷ [];
    ingress = record (shower "one").spec.ingress { labels = some (("app", "shower") ∷ []) };
  };
}

abbrev request : NamespacedName
request = record { name = "one"; namespace = "default" }

abbrev api : Api World
api = api_of one

abbrev world_of : Outcome ((Requeue × Option Error) × World) → World
world_of (done (_, w)) = w
world_of panic = empty

after : World
after = world_of (reconcile plain_library groups api request empty)

-- Neither an error nor another request.
abbrev is_quiet : Outcome ((Requeue × Option Error) × World) → Bool
is_quiet (done ((r, none), w)) = not r.requeue && eqb r.requeue_after 0
is_quiet (done ((r, some e), w)) = false
is_quiet panic = false

is_quiet-eq :
    (m : Outcome ((Requeue × Option Error) × World))
    → is_quiet m ≡ true
    → m ≡ done ((no_requeue, none), world_of m)
is_quiet-eq (done ((r, none), w)) h = ground (arith, h)
is_quiet-eq (done ((r, some e), w)) h = cc
is_quiet-eq panic h = cc

quiet : is_quiet (reconcile plain_library groups api request empty) ≡ true
unfolding reconcile refresh_status run_actions ensure ensure_route after_get_route shower_name
    pipeline_name external_name note_deployment note_route sprintf
quiet = refl

first : reconcile plain_library groups api request empty ≡ done ((no_requeue, none), after)
unfolding after
first = is_quiet-eq _ quiet

-- The Roles are those of the Shower, of its pipelines and of the external service.
three_roles :
    map (place_of Kind.roles) (after.roles)
    ≡ record { name = "meteor-external-default-one"; namespace = "thoth-prod" }
      ∷ record { name = "meteor-pipeline-one"; namespace = "default" }
      ∷ record { name = "meteor-shower-one"; namespace = "default" }
      ∷ []
unfolding after reconcile refresh_status run_actions ensure ensure_route after_get_route shower_name
    pipeline_name external_name note_deployment note_route sprintf
three_roles = refl

-- The Route got a host and the weight of its target.
one_route :
    map {B = String × Option ℕ} (λ r. (r.host, r.to.weight)) (after.routes)
    ≡ ("shower.example", some 100) ∷ []
unfolding after reconcile refresh_status run_actions ensure ensure_route after_get_route shower_name
    pipeline_name external_name note_deployment note_route sprintf
one_route = refl

reconcile-Rests_example :
    Returns
      (Rests plain_library
        (λ kind owner controlled. refl)
        (λ kind owner controlled. (refl, refl))
        groups
        api
        (cluster one)
        after)
      (reconcile plain_library groups api request after)
reconcile-Rests_example =
    reconcile-Rests plain_library (λ kind owner controlled. refl)
      (λ kind owner controlled. (refl, refl)) groups api (cluster one) request one one empty empty
      after (tt, (tt, tt)) refl first refl (refl, refl, refl)

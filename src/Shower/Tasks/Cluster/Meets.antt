-- ===== src/Shower/Tasks/Cluster/Meets.antt =====
-- The cluster of lists meets what is assumed of the API server.
use mathlib.Core.Path.{subst}
use meteor_operator.Prelude.{
  String, ◌==◌, eq_iff, Bool-cases, if◌then◌else◌, ◌≡◌, ◌≢◌, ◌⊎◌, inl, inr, refl, sym, ap, ◌∙◌,
  List,
}
use meteor_operator.Kube.Meta.{NamespacedName}
use meteor_operator.Kube.Client.{Result, ok, err, Resource}
use meteor_operator.Kube.Store.{IsStore, find, store-IsStore, over-IsStore}
use meteor_operator.Kube.Store.Frame.{update_same}
use meteor_operator.Api.Shower.{Shower}
use meteor_operator.Shower.Objects.{Route}
use meteor_operator.Shower.Ensure.Writes.{Keeps}
use meteor_operator.Shower.Ensure.Again.{with_world}
use meteor_operator.Shower.Tasks.{Kind, Object, place_of, resource}
use meteor_operator.Shower.Tasks.Cluster.{IsRouteStored, IsStored, fill, read, IsCluster}
use meteor_operator.Shower.Tasks.Cluster.Lists.{
  World, view, put, put-view, part, stored, made, revised, served, api_of,
}
use meteor_operator.Shower.Tasks.Cluster.Stays.{stored-Keeps}

resource-served : (s : Shower) (K : Kind) → resource (api_of s) K ≡ served K
resource-served s Kind.accounts = refl
resource-served s Kind.roles = refl
resource-served s Kind.bindings = refl
resource-served s Kind.deployments = refl
resource-served s Kind.services = refl
resource-served s Kind.monitors = refl
resource-served s Kind.routes = refl

made-place : (K : Kind) (x : Object K) → place_of K (made K x) ≡ place_of K x
made-place Kind.accounts x = refl
made-place Kind.roles x = refl
made-place Kind.bindings x = refl
made-place Kind.deployments x = refl
made-place Kind.services x = refl
made-place Kind.monitors x = refl
made-place Kind.routes x = refl

fill-place : (K : Kind) (old x : Object K) → place_of K (fill K old x) ≡ place_of K x
fill-place Kind.accounts old x = refl
fill-place Kind.roles old x = refl
fill-place Kind.bindings old x = refl
fill-place Kind.deployments old x = refl
fill-place Kind.services old x = refl
fill-place Kind.monitors old x = refl
fill-place Kind.routes old x = refl

revised-place :
    (K : Kind) (r : Result (Object K)) (x : Object K) → place_of K (revised K r x) ≡ place_of K x
revised-place K (ok old) x = fill-place K old x
revised-place K (err _) x = made-place K x

named_host : (a b : String) → a ≢ "" → (if a == "" then b else a) ≡ a
named_host a b n = elim (Bool-cases (a == "")) [
  | inl e ↦ absurd (n ((eq_iff a "").0 e))
  | inr e ↦ ap (λ t. if t then b else a) e
]

filled-IsRouteStored : (old x : Route) → IsRouteStored x (fill Kind.routes old x)
filled-IsRouteStored old x = record {
  host = λ n. named_host x.host old.host n;
  path = refl;
  kind = refl;
  name = refl;
  weight = refl;
  port = refl;
  annotations = λ k v h. h;
  labels = λ k v h. h;
}

made-IsStored : (K : Kind) (x : Object K) → IsStored K x (made K x)
made-IsStored Kind.routes x = filled-IsRouteStored (record x { host = "shower.example" }) x
made-IsStored Kind.accounts x = refl
made-IsStored Kind.roles x = refl
made-IsStored Kind.bindings x = refl
made-IsStored Kind.deployments x = refl
made-IsStored Kind.services x = refl
made-IsStored Kind.monitors x = refl

fill-IsStored : (K : Kind) (old x : Object K) → IsStored K x (fill K old x)
fill-IsStored Kind.routes old x = filled-IsRouteStored old x
fill-IsStored Kind.accounts old x = refl
fill-IsStored Kind.roles old x = refl
fill-IsStored Kind.bindings old x = refl
fill-IsStored Kind.deployments old x = refl
fill-IsStored Kind.services old x = refl
fill-IsStored Kind.monitors old x = refl

revised-IsStored : (K : Kind) (r : Result (Object K)) (x : Object K) → IsStored K x (revised K r x)
revised-IsStored K (ok old) x = fill-IsStored K old x
revised-IsStored K (err _) x = made-IsStored K x

stored-IsStore : (K : Kind) → IsStore {S = Object K} (stored K) (place_of K) (λ x. x)
stored-IsStore K = over-IsStore (part K) (store-IsStore (place_of K) (λ x. x))

stored_same :
    (K : Kind) (x : Object K) (w : World)
    → find (place_of K) (place_of K x) (view K w) ≡ ok x
    → (stored K).update x w ≡ (ok x, w)
stored_same K x w h =
    ap (λ (a : Result (Object K) × List (Object K)). (a.0, put K w a.1))
      (update_same (place_of K) x (view K w) h)
    ∙ ap (λ v. (ok x, v)) (put-view K w)

moved :
    (K L : Kind) (k : NamespacedName) (x y : Object L)
    → place_of L y ≡ place_of L x
    → (K ≢ L) ⊎ (place_of L x ≢ k)
    → (K ≢ L) ⊎ (place_of L y ≢ k)
moved K L k x y e (inl d) = inl d
moved K L k x y e (inr d) = inr (λ h. d (sym e ∙ h))

served-Keeps :
    (K L : Kind) (k : NamespacedName) (r : Result (Object K))
    → Keeps (λ w. find (place_of K) k (view K w) ≡ r) (λ x. (K ≢ L) ⊎ (place_of L x ≢ k)) (served L)
served-Keeps K L k r = record {
  get = (stored-Keeps K L k r).get;
  create = λ x w may p.
      (stored-Keeps K L k r).create (made L x) w (moved K L k x (made L x) (made-place L x) may) p;
  update = λ x w may p.
      let old = find (place_of L) (place_of L x) (view L w) in
      (stored-Keeps K L k r).update (revised L old x) w
        (moved K L k x (revised L old x) (revised-place L old x) may) p;
}

-- What is written under a key is read back under it, as it is stored.
reads_back :
    (K : Kind) (x z y : Object K) (w : World)
    → place_of K z ≡ place_of K x
    → IsStored K x z
    → (stored K).get (place_of K z) w ≡ (ok y, w)
    → y ≡ z
    → (((stored K).get (place_of K x) w).0 ≡ ok y) × IsStored K x y
reads_back K x z y w p st g e =
    (ap (λ k. ((stored K).get k w).0) (sym p) ∙ ap (λ a. a.0) g, subst (IsStored K x) (sym e) st)

served_same :
    (K : Kind) (x y : Object K) (w : World)
    → find (place_of K) (place_of K x) (view K w) ≡ ok x
    → fill K x y ≡ x
    → (served K).update y w ≡ (ok x, w)
served_same K x y w h f =
    let at = sym (fill-place K x y) ∙ ap (place_of K) f in
    let found = ap (λ k. find (place_of K) k (view K w)) at ∙ h in
    ap (λ r. (stored K).update (revised K r y) w) found
    ∙ ap (λ z. (stored K).update z w) f
    ∙ stored_same K x w h

status_apart :
    (s : Shower) (K : Kind) (k : NamespacedName) (t : Shower) (w : World)
    → read (api_of s) K k ((api_of s).showers.update_status t w).1 ≡ read (api_of s) K k w
status_apart s K k t w = refl

stored-read :
    (K : Kind) (k : NamespacedName) (x : Object K) (w : World)
    → ((stored K).get k w).0 ≡ ok x
    → (stored K).get k w ≡ (ok x, w)
stored-read K k x w h = with_world ((stored K).get k w) w (put-view K w) ∙ ap (λ r. (r, w)) h

-- It meets what is assumed of the API server.
pub cluster : (s : Shower) → IsCluster (api_of s)
cluster s = record {
  get-world = λ K k w.
      subst (λ (R : Resource World (Object K)). (R.get k w).1 ≡ w) (sym (resource-served s K))
        (put-view K w);
  get-place = λ K k x w.
      subst (λ (R : Resource World (Object K)). (R.get k w).0 ≡ ok x → place_of K x ≡ k)
        (sym (resource-served s K))
        (λ h. (stored-IsStore K).get-key k x w w (stored-read K k x w h));
  create-get = λ K x y w w'.
      subst
        (λ (R : Resource World (Object K)).
          R.create x w ≡ (ok y, w') → ((R.get (place_of K x) w').0 ≡ ok y) × IsStored K x y)
        (sym (resource-served s K))
        (λ h.
          reads_back K x (made K x) y w' (made-place K x) (made-IsStored K x)
            ((stored-IsStore K).create-get (made K x) y w w' h)
            ((stored-IsStore K).create-spec (made K x) y w w' h));
  update-get = λ K x y w w'.
      subst
        (λ (R : Resource World (Object K)).
          R.update x w ≡ (ok y, w') → ((R.get (place_of K x) w').0 ≡ ok y) × IsStored K x y)
        (sym (resource-served s K))
        (λ h.
          let old = find (place_of K) (place_of K x) (view K w) in
          reads_back K x (revised K old x) y w' (revised-place K old x) (revised-IsStored K old x)
            ((stored-IsStore K).update-get (revised K old x) y w w' h)
            ((stored-IsStore K).update-spec (revised K old x) y w w' h));
  update_same = λ K x y w.
      subst
        (λ (R : Resource World (Object K)).
          (R.get (place_of K x) w).0 ≡ ok x → fill K x y ≡ x → R.update y w ≡ (ok x, w))
        (sym (resource-served s K)) (served_same K x y w);
  apart = λ K L k r.
      subst
        (λ (R : Resource World (Object K)).
          Keeps (λ w. (R.get k w).0 ≡ r) (λ x. (K ≢ L) ⊎ (place_of L x ≢ k))
            (resource (api_of s) L))
        (sym (resource-served s K))
        (subst
          (λ (R : Resource World (Object L)).
            Keeps (λ w. find (place_of K) k (view K w) ≡ r) (λ x. (K ≢ L) ⊎ (place_of L x ≢ k)) R)
          (sym (resource-served s L)) (served-Keeps K L k r));
  status-apart = λ K k t w. status_apart s K k t w;
}

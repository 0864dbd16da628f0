-- ===== src/Shower/Tasks/Cluster/Stays.antt =====
-- What a write to one of the lists leaves as it is.
use mathlib.Core.Path.{subst}
use meteor_operator.Prelude.{◌≡◌, ◌≢◌, ◌⊎◌, inl, inr, refl, ap, ◌∙◌, List}
use meteor_operator.Kube.Meta.{NamespacedName}
use meteor_operator.Kube.Client.{Result}
use meteor_operator.Kube.Store.{find, store}
use meteor_operator.Kube.Store.Frame.{find-create, find-update}
use meteor_operator.Shower.Ensure.Writes.{Keeps}
use meteor_operator.Shower.Tasks.{Kind, Object, place_of}
use meteor_operator.Shower.Tasks.Cluster.Lists.{World, view, put, view-put, put-view, stored}

view-other : (K L : Kind) (w : World) (v : List (Object L)) → K ≢ L → view K (put L w v) ≡ view K w
view-other Kind.accounts Kind.accounts w v d = absurd (d refl)
view-other Kind.accounts _ w v d = refl
view-other Kind.roles Kind.roles w v d = absurd (d refl)
view-other Kind.roles _ w v d = refl
view-other Kind.bindings Kind.bindings w v d = absurd (d refl)
view-other Kind.bindings _ w v d = refl
view-other Kind.deployments Kind.deployments w v d = absurd (d refl)
view-other Kind.deployments _ w v d = refl
view-other Kind.services Kind.services w v d = absurd (d refl)
view-other Kind.services _ w v d = refl
view-other Kind.monitors Kind.monitors w v d = absurd (d refl)
view-other Kind.monitors _ w v d = refl
view-other Kind.routes Kind.routes w v d = absurd (d refl)
view-other Kind.routes _ w v d = refl

Kind-discrete : Discrete Kind
Kind-discrete = hlevel

-- The part for one kind, after the part for another one has been written.
abbrev Stays : (K L : Kind) → NamespacedName → World → List (Object L) → Type 0
Stays K L k w v = find (place_of K) k (view K (put L w v)) ≡ find (place_of K) k (view K w)

Stays-other :
    (K L : Kind) (k : NamespacedName) (w : World) (v : List (Object L)) → K ≢ L → Stays K L k w v
Stays-other K L k w v d = ap (find (place_of K) k) (view-other K L w v d)

Stays-same :
    (K : Kind) (k : NamespacedName) (w : World) (v : List (Object K))
    → find (place_of K) k v ≡ find (place_of K) k (view K w)
    → Stays K K k w v
Stays-same K k w v e = ap (find (place_of K) k) (view-put K w v) ∙ e

Stays-of :
    (K L : Kind) (k : NamespacedName) (w : World) (x : Object L)
    (change : (L : Kind) → Object L → List (Object L) → List (Object L))
    → ((x : Object K) (xs : List (Object K))
        → place_of K x ≢ k
        → find (place_of K) k (change K x xs) ≡ find (place_of K) k xs)
    → (K ≢ L) ⊎ (place_of L x ≢ k)
    → Stays K L k w (change L x (view L w))
Stays-of K L k w x change same (inl d) = Stays-other K L k w _ d
Stays-of K L k w x change same (inr d) = elim (Kind-discrete K L) [
  | no n ↦ Stays-other K L k w _ n
  | yes e ↦
      subst (λ L. (x : Object L) → place_of L x ≢ k → Stays K L k w (change L x (view L w))) e
        (λ x d. Stays-same K k w _ (same x (view K w) d)) x d
]

pub stored-Keeps :
    (K L : Kind) (k : NamespacedName) (r : Result (Object K))
    → Keeps (λ w. find (place_of K) k (view K w) ≡ r) (λ x. (K ≢ L) ⊎ (place_of L x ≢ k)) (stored L)
stored-Keeps K L k r = record {
  get = λ j w p. ap (λ v. find (place_of K) k (view K v)) (put-view L w) ∙ p;
  create = λ x w may p.
      Stays-of K L k w x (λ L x xs. ((store (place_of L)).create x xs).1)
        (find-create (place_of K) k) may
      ∙ p;
  update = λ x w may p.
      Stays-of K L k w x (λ L x xs. ((store (place_of L)).update x xs).1)
        (find-update (place_of K) k) may
      ∙ p;
}

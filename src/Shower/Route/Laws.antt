-- ===== src/Shower/Route/Laws.antt =====
-- The Route of a Shower: the subset test on maps, and what an existing Route meets.
use meteor_operator.Prelude.{
  String, ◌≡◌, refl, ◌↔◌, ◌⊎◌, inl, inr, ap, true, false, Option, none, some, List, [], ◌∷◌,
  StringMap, map_get, All, arith, eq_iff, is_empty, Bool-cases,
}
use meteor_operator.Kube.Client.{ok, Resource, done, panic}
use meteor_operator.Kube.Library.{Library}
use meteor_operator.Api.Shower.{Shower}
use meteor_operator.Shower.Objects.{Route, has_value}
use meteor_operator.Shower.Desired.{shower_name}
use meteor_operator.Shower.Route.{
  entries, are_entries_of, is_map_a_subset, copy_into, route_differs, change_route, after_get_route,
  ensure_route,
}

has_value_iff : (v : String) (o : Option String) → (has_value v o ≡ true) ↔ (o ≡ some v)
has_value_iff v none = (λ h. cc, λ h. cc)
has_value_iff v (some u) = (λ h. ap some ((eq_iff u v).0 h), λ h. ground (arith, h, eq_iff u v))

are_entries_of_iff :
    (superset : StringMap) (subset : List (String × String))
    → (are_entries_of superset subset ≡ true)
      ↔ All (λ (e : String × String). map_get superset e.0 ≡ some e.1) subset
are_entries_of_iff superset [] = (λ _. tt, λ _. refl)
are_entries_of_iff superset ((k, v) ∷ subset) =
    let rest = are_entries_of_iff superset subset in
    elim (Bool-cases (has_value v (map_get superset k))) [
      | inl h ↦
          rw h (λ s. ((has_value_iff v (map_get superset k)).0 h, rest.0 s), λ (e, es). rest.1 es)
      | inr h ↦ rw h (λ s. cc, λ (e, es). cc (h, (has_value_iff v (map_get superset k)).1 e))
    ]

-- `isMapASubset` holds exactly when the first map has each entry of the second.
pub is_map_a_subset_iff :
    (superset subset : StringMap)
    → (is_map_a_subset superset subset ≡ true)
      ↔ All (λ (e : String × String). map_get superset e.0 ≡ some e.1) (entries subset)
unfolding is_map_a_subset
is_map_a_subset_iff superset subset = are_entries_of_iff superset (entries subset)

-- There is something to write into the nil map.
abbrev pub WritesToNil : (source target : StringMap) → Type 0
WritesToNil source target = (is_empty (entries source) ≡ false) × (target ≡ none)

copy_into-cases :
    (source target : StringMap)
    → ((copy_into source target ≡ panic) × WritesToNil source target)
      ⊎ ((t : StringMap) × (copy_into source target ≡ done t) × (WritesToNil source target → ⊥))
unfolding copy_into
copy_into-cases none target = inr (target, refl, λ h. cc (h.0))
copy_into-cases (some []) target = inr (target, refl, λ h. cc (h.0))
copy_into-cases (some (e ∷ es)) none = inl (refl, (refl, refl))
copy_into-cases (some (e ∷ es)) (some m) = inr (_, refl, λ h. cc (h.1))

-- The Route lacks a map that the Shower's ingress has entries for.
abbrev pub LacksMap : Shower → Route → Type 0
LacksMap s res =
    WritesToNil s.spec.ingress.annotations res.meta.annotations
    ⊎ WritesToNil s.spec.ingress.labels res.meta.labels

change_route-cases :
    (s : Shower) (res : Route)
    → ((change_route s res ≡ panic) × LacksMap s res)
      ⊎ ((t : Route) × (change_route s res ≡ done t) × (LacksMap s res → ⊥))
unfolding change_route
change_route-cases s res = elim (copy_into-cases s.spec.ingress.annotations res.meta.annotations) [
  | inl (p, n) ↦ rw p (inl (refl, inl n))
  | inr (t, d, f) ↦ elim (copy_into-cases s.spec.ingress.labels res.meta.labels) [
    | inl (p, n) ↦ rw (d, p) (inl (refl, inr n))
    | inr (u, e, g) ↦ rw (d, e) (inr (_, refl, λ h. elim h [ inl x ↦ f x | inr y ↦ g y ]))
  ]
]

module _ {W : Type 0} (lib : Library) (routes : Resource W Route) (s : Shower) (namespace : String)
    (w w' : W) (res : Route)
    (got : routes.get (record { name = shower_name s; namespace = namespace }) w
      ≡ (ok res, w')) where
  -- The reconciliation of a Route that is there panics exactly when the Route is to be updated and
  -- has no annotations, or no labels, while the Shower's ingress asks for some.
  pub ensure_route-eq-panic_iff :
      (ensure_route lib routes s namespace w ≡ panic)
      ↔ (route_differs s res ≡ true) × LacksMap s res
  unfolding ensure_route after_get_route
  ensure_route-eq-panic_iff = rw got (elim (Bool-cases (route_differs s res)) [
    | inr h ↦ rw h (λ p. cc, λ (t, _). cc)
    | inl h ↦ elim (change_route-cases s res) [
      | inl (p, l) ↦ rw (h, p) (λ _. (refl, l), λ _. refl)
      | inr (t, d, f) ↦ rw (h, d) (λ p. cc, λ (_, l). elim (f l) [ ])
    ]
  ])

-- ===== src/Shower/Route/Copies.antt =====
-- The loops of controllers/shower/route_reconciler.go that copy one map into another, run twice.
use meteor_operator.Prelude.{
  String, ◌≡◌, ◌≢◌, ◌⊎◌, refl, ap, ◌∙◌, none, some, List, [], ◌∷◌, ◌==◌, StringMap, lookup, All,
  arith, eq_iff, eq_refl, inl, inr, if◌then◌else◌,
}
use meteor_operator.Kube.Client.{done, panic}
use meteor_operator.Shower.Route.{entries, put, put_all, copy_into}

-- The keys of a map differ.
abbrev pub AreKeyed : List (String × String) → Type 0
AreKeyed [] = Unit
AreKeyed ((k, v) ∷ m) = All (λ (e : String × String). e.0 ≢ k) m × AreKeyed m

lookup-put :
    (k v j : String) (m : List (String × String))
    → lookup j (put k v m) ≡ (if k == j then some v else lookup j m)
lookup-put k v j [] = refl
lookup-put k v j ((i, u) ∷ m) =
    ground (arith, eq_iff k j, eq_iff i k, eq_iff i j, lookup-put k v j m)

lookup-put_all_other :
    (j : String) (more m : List (String × String))
    → All (λ (e : String × String). e.0 ≢ j) more
    → lookup j (put_all more m) ≡ lookup j m
lookup-put_all_other j [] m h = refl
lookup-put_all_other j ((k, v) ∷ more) m (n, h) =
    lookup-put_all_other j more (put k v m) h ∙ lookup-put k v j m ∙ ground (arith, eq_iff k j)

-- The map has the entries of the other one.
abbrev pub Has : List (String × String) → List (String × String) → Type 0
Has m = All (λ (e : String × String). lookup e.0 m ≡ some e.1)

put_all-Has : (src m : List (String × String)) → AreKeyed src → Has (put_all src m) src
put_all-Has [] m u = tt
put_all-Has ((k, v) ∷ src) m (fresh, u) = (
  lookup-put_all_other k src (put k v m) fresh
      ∙ lookup-put k v k m
      ∙ ap (λ b. if b then some v else lookup k m) (eq_refl k),
  put_all-Has src (put k v m) u,
)

put_same : (k v : String) (m : List (String × String)) → lookup k m ≡ some v → put k v m ≡ m
put_same k v [] h = cc
put_same k v ((j, u) ∷ m) h = ground (arith, eq_iff j k, put_same k v m)

put_all_same : (src m : List (String × String)) → Has m src → put_all src m ≡ m
put_all_same [] m h = refl
put_all_same ((k, v) ∷ src) m (h, hs) = ap (put_all src) (put_same k v m h) ∙ put_all_same src m hs

Has-cons :
    (k v : String) (m src : List (String × String))
    → All (λ (e : String × String). e.0 ≢ k) src
    → Has m src
    → Has ((k, v) ∷ m) src
Has-cons k v m [] f h = tt
Has-cons k v m ((j, u) ∷ src) (n, f) (g, h) = (ground (arith, eq_iff k j), Has-cons k v m src f h)

pub self-Has : (src : List (String × String)) → AreKeyed src → Has src src
self-Has [] u = tt
self-Has ((k, v) ∷ src) (f, u) = (
  ap (λ b. if b then some v else lookup k src) (eq_refl k),
  Has-cons k v src src f (self-Has src u),
)

-- The map that the copy makes, when it does not panic.
abbrev pub merge : (source target : StringMap) → StringMap
merge none target = target
merge (some []) target = target
merge (some (e ∷ es)) target = some (put_all (e ∷ es) (entries target))

-- A map that has the entries already stays as it is.
pub merge_same :
    (source target : StringMap)
    → Has (entries target) (entries source)
    → merge source target ≡ target
merge_same none target h = refl
merge_same (some []) target h = refl
merge_same (some (e ∷ es)) none (h, _) = cc
merge_same (some (e ∷ es)) (some m) h = ap some (put_all_same (e ∷ es) m h)

pub merge-Has :
    (source target : StringMap)
    → AreKeyed (entries source)
    → Has (entries (merge source target)) (entries source)
merge-Has none target u = tt
merge-Has (some []) target u = tt
merge-Has (some (e ∷ es)) target u = put_all-Has (e ∷ es) (entries target) u

-- The copy makes the map, or it panics, and then the map would be another one.
pub copy_into-merge :
    (source target : StringMap)
    → (copy_into source target ≡ done (merge source target))
      ⊎ ((copy_into source target ≡ panic) × (merge source target ≢ target))
unfolding copy_into
copy_into-merge none target = inl refl
copy_into-merge (some []) target = inl refl
copy_into-merge (some (e ∷ es)) none = inr (refl, λ h. cc)
copy_into-merge (some (e ∷ es)) (some m) = inl refl

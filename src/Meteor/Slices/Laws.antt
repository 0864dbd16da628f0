-- ===== src/Meteor/Slices/Laws.antt =====
-- Slices that are used as sets: appending and removing.
use meteor_operator.Prelude.{
  String, ◌≡◌, refl, inl, inr, false, ◌||◌, ◌&&◌, not, List, [], ◌∷◌, ◌++◌, ◌==◌, arith, eq_iff,
  Bool-cases,
}
use meteor_operator.Meteor.Slices.{contains_string, append_unique, remove}

-- No text occurs twice.
abbrev pub IsUnique : List String → Type 0
IsUnique [] = Unit
IsUnique (x ∷ xs) = (contains_string xs x ≡ false) × IsUnique xs

contains-append :
    (xs : List String) (x y : String)
    → contains_string (xs ++ x ∷ []) y ≡ (contains_string xs y || x == y)
unfolding contains_string
contains-append [] x y = ground arith
contains-append (z ∷ xs) x y = ground (arith, contains-append xs x y)

-- Appending adds the one element, and keeps the others.
pub contains-append_unique :
    (xs : List String) (x y : String)
    → contains_string (append_unique xs x) y ≡ (contains_string xs y || x == y)
unfolding append_unique
contains-append_unique xs x y = ground (arith, contains-append xs x y, eq_iff x y)

IsUnique-append :
    (xs : List String) (x : String)
    → contains_string xs x ≡ false
    → IsUnique xs
    → IsUnique (xs ++ x ∷ [])
unfolding contains_string
IsUnique-append [] x h u = (refl, tt)
IsUnique-append (y ∷ xs) x h (fresh, u) = (
  ground (arith, contains-append xs x y, eq_iff y x, eq_iff x y),
  IsUnique-append xs x (ground arith) u,
)

pub append_unique-IsUnique :
    (xs : List String) (x : String) → IsUnique xs → IsUnique (append_unique xs x)
unfolding append_unique
append_unique-IsUnique xs x u = elim (Bool-cases (contains_string xs x)) [
  | inl h ↦ rw h u
  | inr h ↦ rw h (IsUnique-append xs x h u)
]

-- Removing drops the element from a slice without repetitions, and keeps the others.
pub contains-remove :
    (xs : List String) (x y : String)
    → IsUnique xs
    → contains_string (remove xs x) y ≡ (contains_string xs y && not (x == y))
unfolding contains_string remove
contains-remove [] x y u = refl
contains-remove (z ∷ xs) x y (fresh, u) =
    ground (arith, contains-remove xs x y u, eq_iff z x, eq_iff x y, eq_iff z y)

pub remove-IsUnique : (xs : List String) (x : String) → IsUnique xs → IsUnique (remove xs x)
unfolding contains_string remove
remove-IsUnique [] x u = tt
remove-IsUnique (z ∷ xs) x (fresh, u) =
    ground (arith, remove-IsUnique xs x u, contains-remove xs x z u)

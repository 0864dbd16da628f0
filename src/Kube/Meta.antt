-- ===== src/Kube/Meta.antt =====
-- `metav1.ObjectMeta` and its parts, reduced to the fields that the operator reads or writes.
use meteor_operator.Prelude.{ℕ, String, Bool, Option, none, some, List, [], StringMap}
use meteor_operator.Prelude.Int.{ℤ, pos, eqb_ℤ}

-- An instant, in nanoseconds since the zero value of Go's `time.Time`.
abbrev pub Time : Type 0
Time = ℤ

abbrev pub is_zero : Time → Bool
is_zero t = eqb_ℤ t (pos 0)

-- `(*metav1.Time).IsZero`: the nil pointer counts as zero
abbrev pub is_unset : Option Time → Bool
is_unset none = Bool.true
is_unset (some t) = is_zero t

pub record NamespacedName : Type 0 where
  pub name : String
  pub namespace : String

pub record TypeMeta : Type 0 where
  pub api_version : String
  pub kind : String

-- Pointers to Booleans are `Option Bool`.
pub record OwnerReference : Type 0 where
  pub api_version : String
  pub kind : String
  pub name : String
  pub uid : String
  pub controller : Option Bool
  pub block_owner_deletion : Option Bool

pub record ObjectMeta : Type 0 where
  pub name : String
  pub namespace : String
  pub uid : String
  pub generation : ℕ
  pub creation_timestamp : Time
  pub deletion_timestamp : Option Time
  pub labels : StringMap
  pub annotations : StringMap
  pub finalizers : List String
  pub owner_references : List OwnerReference

-- The zero value of the struct, with a name and a namespace.
abbrev pub named : String → String → ObjectMeta
named name namespace = record {
  name = name;
  namespace = namespace;
  uid = "";
  generation = 0;
  creation_timestamp = pos 0;
  deletion_timestamp = none;
  labels = none;
  annotations = none;
  finalizers = [];
  owner_references = [];
}

-- `client.ObjectKeyFromObject`
abbrev pub key_of : ObjectMeta → NamespacedName
key_of m = record { name = m.name; namespace = m.namespace }

-- ===== src/Shower/Tasks/Cluster.antt =====
-- What the API server promises for the objects of a Shower, when nobody else writes them.
pub mod Lists
pub mod Stays
pub mod Meets
use meteor_operator.Prelude.{
  ℕ, String, ◌≡◌, ◌≢◌, ◌⊎◌, Option, none, some, ◌==◌, StringMap, lookup, if◌then◌else◌,
}
use meteor_operator.Kube.Meta.{NamespacedName}
use meteor_operator.Kube.Client.{Result, ok, err}
use meteor_operator.Api.Shower.{Shower}
use meteor_operator.Shower.Ensure.Writes.{Keeps}
use meteor_operator.Shower.Objects.{Route}
use meteor_operator.Shower.Route.{entries}
use meteor_operator.Shower.Desired.{Groups}
use meteor_operator.Shower.Actions.{Api}
use meteor_operator.Shower.Tasks.{
  Kind, Object, place_of, Content, content, resource, Task, slot_key, change,
}

-- The weight of a Route's only target, where none is given.
abbrev pub default_weight : Option ℕ → ℕ
default_weight none = 100
default_weight (some n) = n

-- The map has the entries of the other one.
abbrev pub Extends : StringMap → StringMap → Type 0
Extends n m = (k v : String) → lookup k (entries m) ≡ some v → lookup k (entries n) ≡ some v

-- What OpenShift makes of a Route that it is given: it chooses a host when none is given, fills in the
-- weight, and may note this in the metadata.
pub record IsRouteStored (x y : Route) : Type 0 where
  pub host : x.host ≢ "" → y.host ≡ x.host
  pub path : y.path ≡ x.path
  pub kind : y.to.kind ≡ x.to.kind
  pub name : y.to.name ≡ x.to.name
  pub weight : y.to.weight ≡ some (default_weight x.to.weight)
  pub port : y.port ≡ x.port
  pub annotations : Extends y.meta.annotations x.meta.annotations
  pub labels : Extends y.meta.labels x.meta.labels

-- The object `y` is what is stored for `x`: a Route is filled in, and the others have the content that
-- they were given.
abbrev pub IsStored : (K : Kind) (x y : Object K) → Type 0
IsStored Kind.routes x y = IsRouteStored x y
IsStored Kind.accounts x y = content Kind.accounts y ≡ content Kind.accounts x
IsStored Kind.roles x y = content Kind.roles y ≡ content Kind.roles x
IsStored Kind.bindings x y = content Kind.bindings y ≡ content Kind.bindings x
IsStored Kind.deployments x y = content Kind.deployments y ≡ content Kind.deployments x
IsStored Kind.services x y = content Kind.services y ≡ content Kind.services x
IsStored Kind.monitors x y = content Kind.monitors y ≡ content Kind.monitors x

-- An update over the object `old`: a Route that names no host keeps the old one, and the weight is
-- filled in.
abbrev pub fill : (K : Kind) (old x : Object K) → Object K
fill Kind.routes old x = record x {
  host = if x.host == "" then old.host else x.host;
  to = record x.to { weight = some (default_weight x.to.weight) };
}
fill Kind.accounts old x = x
fill Kind.roles old x = x
fill Kind.bindings old x = x
fill Kind.deployments old x = x
fill Kind.services old x = x
fill Kind.monitors old x = x

module _ {W : Type 0} (api : Api W) where
  -- What the server answers to a read.
  abbrev pub read : (K : Kind) → NamespacedName → W → Result (Object K)
  read K k w = ((resource api K).get k w).0

  -- Reads change nothing and answer with the object of the key. What is written is read back as
  -- it is stored, and an update that changes nothing, once it is filled in, leaves the cluster as it is.
  -- A write reaches no object of another kind, and none under another key.
  pub record IsCluster : Type 0 where
    pub get-world : (K : Kind) (k : NamespacedName) (w : W) → ((resource api K).get k w).1 ≡ w
    pub get-place :
        (K : Kind) (k : NamespacedName) (x : Object K) (w : W)
        → read K k w ≡ ok x
        → place_of K x ≡ k
    pub create-get :
        (K : Kind) (x y : Object K) (w w' : W)
        → (resource api K).create x w ≡ (ok y, w')
        → (read K (place_of K x) w' ≡ ok y) × IsStored K x y
    pub update-get :
        (K : Kind) (x y : Object K) (w w' : W)
        → (resource api K).update x w ≡ (ok y, w')
        → (read K (place_of K x) w' ≡ ok y) × IsStored K x y
    pub update_same :
        (K : Kind) (x y : Object K) (w : W)
        → read K (place_of K x) w ≡ ok x
        → fill K x y ≡ x
        → (resource api K).update y w ≡ (ok x, w)
    pub apart :
        (K L : Kind) (k : NamespacedName) (r : Result (Object K))
        → Keeps (λ w. read K k w ≡ r) (λ x. (K ≢ L) ⊎ (place_of L x ≢ k)) (resource api L)
    pub status-apart :
        (K : Kind) (k : NamespacedName) (s : Shower) (w : W)
        → read K k (api.showers.update_status s w).1 ≡ read K k w

-- There is nothing to change in the object, or the change comes to nothing once it is filled in.
abbrev pub IsFixed : (K : Kind) → (Object K → Option (Object K)) → Object K → Type 0
IsFixed K change x = (change x ≡ none) ⊎ ((y : Object K) × (change x ≡ some y) × (fill K x y ≡ x))

-- The object is there, and there is nothing to change in it.
abbrev pub IsReady : {W : Type 0} → Groups → Api W → (home : String) → Shower → Task → W → Type 0
IsReady groups api home s t w =
    (x : Object t.kind) × (read api t.kind (slot_key home s t.slot) w ≡ ok x)
    × IsFixed t.kind (change groups home s t.kind t.slot) x

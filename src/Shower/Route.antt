-- ===== src/Shower/Route.antt =====
-- controllers/shower/route_reconciler.go.
pub mod Laws
pub mod Copies
use meteor_operator.Prelude.{
  String, Bool, true, false, not, ◌||◌, Option, none, some, List, [], ◌∷◌, ◌==◌, StringMap, map_get,
  sprintf, if◌then◌else◌,
}
use meteor_operator.Kube.Meta.{NamespacedName, named}
use meteor_operator.Kube.Client.{Error, Result, ok, err, Resource, Outcome, done, panic, ◌>>=◌}
use meteor_operator.Kube.Library.{Library}
use meteor_operator.Api.Shower.{Shower, IngressSpec}
use meteor_operator.Shower.Objects.{Route, RouteTarget, has_value, equal_targets, equal_options}
use meteor_operator.Shower.Ensure.{Ensured, get_failed, kept, after_create, after_update}
use meteor_operator.Shower.Desired.{shower_name}

abbrev pub entries : StringMap → List (String × String)
entries none = []
entries (some m) = m

-- The loop of `isMapASubset`.
abbrev pub are_entries_of : StringMap → List (String × String) → Bool
are_entries_of superset [] = true
are_entries_of superset ((key, target) ∷ subset) =
    let rest = are_entries_of superset subset in
    if has_value target (map_get superset key) then rest else false

unfoldable pub is_map_a_subset : (superset subset : StringMap) → Bool
is_map_a_subset superset subset = are_entries_of superset (entries subset)

-- `m[k] = v` in a map that is there.
abbrev pub put : String → String → List (String × String) → List (String × String)
put k v [] = (k, v) ∷ []
put k v ((j, u) ∷ m) = let rest = put k v m in if j == k then (k, v) ∷ m else (j, u) ∷ rest

abbrev pub put_all : List (String × String) → List (String × String) → List (String × String)
put_all [] m = m
put_all ((k, v) ∷ more) m = put_all more (put k v m)

-- The loop that copies a map into another: writing to the nil map panics.
unfoldable pub copy_into : (source target : StringMap) → Outcome StringMap
copy_into none target = done target
copy_into (some []) target = done target
copy_into (some (e ∷ es)) none = panic
copy_into (some (e ∷ es)) (some m) = done (some (put_all (e ∷ es) m))

abbrev pub route_target : Shower → RouteTarget
route_target s = record { kind = "Service"; name = shower_name s; weight = none }

abbrev pub route_port : Option String
route_port = some "http"

-- The test for an update.
unfoldable pub route_differs : Shower → Route → Bool
unfolding is_map_a_subset
route_differs s res =
    not (is_map_a_subset res.meta.annotations s.spec.ingress.annotations)
    || not (is_map_a_subset res.meta.labels s.spec.ingress.labels)
    || not (res.host == s.spec.ingress.host)
    || not (res.path == s.spec.ingress.path)
    || equal_targets res.to (route_target s)
    || equal_options res.port route_port

-- The object as it is handed to `Update`.
unfoldable pub change_route : Shower → Route → Outcome Route
unfolding copy_into
change_route s res = do
  annotations ← copy_into s.spec.ingress.annotations res.meta.annotations
  labels ← copy_into s.spec.ingress.labels res.meta.labels
  done (record res {
    meta = record res.meta { annotations = annotations; labels = labels };
    host = s.spec.ingress.host;
    path = s.spec.ingress.path;
    to = route_target s;
    port = route_port;
  })

unfoldable pub route_url : Route → String
route_url res = sprintf ((if res.tls then "https" else "http") ∷ "://" ∷ res.host ∷ res.path ∷ [])

module _ {W : Type 0} (lib : Library) (routes : Resource W Route) where
  -- The object as it is handed to `Create`.
  abbrev pub new_route : Shower → (namespace : String) → Route
  new_route s namespace = record {
    meta =
        lib.set_controller_reference s.type_meta s.meta (record (named (shower_name s) namespace) {
          annotations = s.spec.ingress.annotations;
          labels = s.spec.ingress.labels;
        });
    host = s.spec.ingress.host;
    path = s.spec.ingress.path;
    to = route_target s;
    port = route_port;
    tls = false;
  }

  -- The branches on what `Get` returned.
  unfoldable pub after_get_route :
      Shower → (namespace : String) → Result Route × W → Outcome (Ensured Route × W)
  unfolding route_differs change_route
  after_get_route s namespace (ok res, w) =
      if route_differs s res
      then (change_route s res >>= λ changed. done (after_update routes (routes.update changed w)))
      else done (kept res, w)
  after_get_route s namespace (err e, w) = done (
      if e.not_found
      then after_create routes (routes.create (new_route s namespace) w)
      else (get_failed e, w))

  unfoldable pub ensure_route : Shower → (namespace : String) → W → Outcome (Ensured Route × W)
  unfolding after_get_route
  ensure_route s namespace w =
      after_get_route s namespace
        (routes.get (record { name = shower_name s; namespace = namespace }) w)

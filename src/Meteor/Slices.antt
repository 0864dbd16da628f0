-- ===== src/Meteor/Slices.antt =====
-- The helpers on slices: containsString of meteor_controller.go, appendUnique and remove of
-- pipelinerun_reconciler.go, containsComa of coma_reconciler.go.
pub mod Laws
use meteor_operator.Prelude.{
  String, Bool, true, false, ◌&&◌, List, [], ◌∷◌, ◌++◌, ◌==◌, if◌then◌else◌,
}
use meteor_operator.Api.Common.{NamespacedOwnerReference}

unfoldable pub contains_string : List String → String → Bool
contains_string [] s = false
contains_string (item ∷ slice) s = if item == s then true else contains_string slice s

unfoldable pub append_unique : List String → String → List String
unfolding contains_string
append_unique slice elem = if contains_string slice elem then slice else slice ++ elem ∷ []

-- Drops the first occurrence.
unfoldable pub remove : List String → String → List String
remove [] elem = []
remove (v ∷ slice) elem = if v == elem then slice else v ∷ remove slice elem

unfoldable pub contains_coma : List NamespacedOwnerReference → NamespacedOwnerReference → Bool
contains_coma [] ref = false
contains_coma (item ∷ slice) ref =
    if item.namespace == ref.namespace && item.name == ref.name && item.uid == ref.uid
    then true
    else contains_coma slice ref

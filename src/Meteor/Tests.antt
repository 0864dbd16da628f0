-- ===== src/Meteor/Tests.antt =====
-- Tests of the Meteor controller's helpers, of the choice of a Shower and of the Comas, and the
-- theorems about them at sample inputs.
use meteor_operator.Prelude.{
  ◌≡◌, refl, true, not, none, some, [], ◌∷◌, is_empty, find, arith, if◌then◌else◌,
}
use meteor_operator.Prelude.Int.{pos}
use meteor_operator.Kube.Doubles.{plain_library}
use meteor_operator.Api.Common.{building}
use meteor_operator.Api.Meteor.{is_ttl_reached, aggregate_phase}
use meteor_operator.Api.Meteor.Laws.{
  settled, verdict, aggregate_phase-verdict, is_ttl_reached-wraps,
}
use meteor_operator.Meteor.Slices.{append_unique, remove}
use meteor_operator.Meteor.Title.{title}
use meteor_operator.Meteor.Owner.{find_owner_shower}
use meteor_operator.Meteor.Owner.Laws.{last, find_owner_shower-last}
use meteor_operator.Meteor.Comas.{ensure_finalizers}
use meteor_operator.Meteor.Comas.Laws.{Released, ensure_finalizers-Released}
use meteor_operator.Meteor.Samples.{
  meteor, shower, labelled, leaving, reconciler, api, two, settling, held, released,
}

titles : (title "jupyter-hub" ≡ "Jupyter-Hub") × (title "my_book 2a" ≡ "My_book 2a")
unfolding title
titles = (refl, refl)

slices :
    (append_unique ("a" ∷ "b" ∷ []) "b" ≡ "a" ∷ "b" ∷ [])
    × (remove ("a" ∷ "b" ∷ "a" ∷ []) "a" ≡ "b" ∷ "a" ∷ [])
unfolding append_unique remove
slices = (refl, refl)

is_ttl_reached-wraps_example : is_ttl_reached (meteor (pos 10000000000) []) (pos 2000) ≡ true
is_ttl_reached-wraps_example =
    is_ttl_reached-wraps (meteor (pos 10000000000) []) (pos 2000) 10000000000 refl (omega arith)
      (omega arith) (omega arith)

find_owner_shower-last_example :
    (find_owner_shower plain_library
      (api labelled two)
      (reconciler labelled none)
      none).reconciler.shower
    ≡ some (last (shower "two") [])
find_owner_shower-last_example =
    find_owner_shower-last plain_library (api labelled two) (reconciler labelled none) none none
      "one" (shower "one") (shower "two") [] refl refl refl

ensure_finalizers-Released_example :
    Released plain_library
      (api leaving two)
      (reconciler leaving none)
      none
      (ensure_finalizers plain_library (api leaving two) (reconciler leaving none) none)
ensure_finalizers-Released_example =
    ensure_finalizers-Released plain_library (api leaving two) (reconciler leaving none) none refl
      held released

aggregate_phase-verdict_example : aggregate_phase (meteor (pos 0) (settling ∷ [])) ≡ (
    if is_empty (settling ∷ [])
    then building
    else verdict (find (λ c. not (settled c)) (settling ∷ [])))
aggregate_phase-verdict_example = aggregate_phase-verdict (meteor (pos 0) (settling ∷ []))

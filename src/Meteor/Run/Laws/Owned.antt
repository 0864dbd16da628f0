-- ===== src/Meteor/Run/Laws/Owned.antt =====
-- Every PipelineRun that is submitted for a Meteor names its owners.
use meteor_operator.Prelude.{String, ◌≡◌, ◌⊎◌, false, [], ◌∷◌, ◌++◌, is_empty}
use meteor_operator.Kube.Client.{ok}
use meteor_operator.Kube.Library.{Library}
use meteor_operator.Api.Meteor.{get_reference}
use meteor_operator.Api.Shower.{Shower}
use meteor_operator.Meteor.State.{Reconciler, Api, Step}
use meteor_operator.Meteor.Build.{Json}
use meteor_operator.Meteor.Run.{submitted}

module _ {W : Type 0} (lib : Library) (json : Json) (api : Api W) where
  -- The owner references that a run gets: the Comas of the Meteor, at least one, and the Meteor.
  abbrev pub AreOwners : Reconciler → String → Type 0
  AreOwners r references =
      (is_empty r.meteor.status.comas ≡ false)
      × (json.references (r.meteor.status.comas ++ get_reference r.meteor false ∷ [])
          ≡ ok references)

  -- The cluster is as it was, or a run with these owner references was submitted to it.
  abbrev pub IsOwned : Reconciler → (name namespace : String) → W → Step W → Type 0
  IsOwned r name namespace w step =
      (step.world ≡ w)
      ⊎ ((references services : String) × (s : Shower) × AreOwners r references
          × (step.world
              ≡ (api.pipeline_runs.create
                  (submitted lib json api r name namespace s references services) w).1))

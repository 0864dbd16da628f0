-- ===== src/Meteor/Permits.antt =====
-- What a reconciliation of a Meteor may do to the cluster.
use meteor_operator.Prelude.{String, ◌≡◌, ◌≢◌, [], ◌∷◌, sprintf}
use meteor_operator.Kube.Meta.{NamespacedName}
use meteor_operator.Kube.Client.{ok}
use meteor_operator.Tekton.{PipelineRun}
use meteor_operator.Api.Coma.{Coma}
use meteor_operator.Api.Meteor.{Meteor}
use meteor_operator.Meteor.State.{Reconciler, Api}

-- A run of a pipeline, under the pipeline's name for the Meteor `owner`, in the namespace.
abbrev pub IsRunOf : (owner namespace : String) → PipelineRun → Type 0
IsRunOf owner namespace run =
    (run.meta.namespace ≡ namespace)
    × ((pipeline : String) × (run.meta.name ≡ sprintf (owner ∷ "-" ∷ pipeline ∷ []))
        × (run.spec.pipeline_ref ≡ pipeline))

-- A Coma with the name of the Meteor, in a namespace.
abbrev pub IsComaOf : (owner : String) → Coma → Type 0
IsComaOf owner coma = (coma.meta.name ≡ owner) × (coma.meta.namespace ≢ "")

-- `P` is still true of the cluster after reads, after writes and deletions of the Meteor `owner`, after
-- status updates and deletions of Comas, and after the creation of Comas and runs of that Meteor.
pub record Permits {W : Type 0} (P : W → Type 0) (api : Api W) (owner namespace : String)
    : Type 0 where
  pub meteor_update :
      (m : Meteor) (w : W) → m.meta.name ≡ owner → P w → P (api.meteors.update m w).1
  pub meteor_status :
      (m : Meteor) (w : W) → m.meta.name ≡ owner → P w → P (api.meteors.update_status m w).1
  pub meteor_delete :
      (m : Meteor) (w : W) → m.meta.name ≡ owner → P w → P (api.meteors.delete m w).1
  pub shower_list : (w : W) → P w → P (api.showers.list w).1
  pub coma_get : (k : NamespacedName) (w : W) → P w → P (api.comas.get k w).1
  pub coma_create : (x : Coma) (w : W) → IsComaOf owner x → P w → P (api.comas.create x w).1
  pub coma_status : (x : Coma) (w : W) → P w → P (api.comas.update_status x w).1
  pub coma_delete : (x : Coma) (w : W) → P w → P (api.comas.delete x w).1
  pub run_get : (k : NamespacedName) (w : W) → P w → P (api.pipeline_runs.get k w).1
  pub run_create :
      (x : PipelineRun) (w : W)
      → IsRunOf owner namespace x
      → P w
      → P (api.pipeline_runs.create x w).1

-- The server answers a write of a Meteor with a Meteor of the same name.
pub record KeepsName {W : Type 0} (api : Api W) : Type 0 where
  pub update-name :
      (m m' : Meteor) (w w' : W) → api.meteors.update m w ≡ (ok m', w') → m'.meta.name ≡ m.meta.name
  pub status-name :
      (m m' : Meteor) (w w' : W)
      → api.meteors.update_status m w ≡ (ok m', w')
      → m'.meta.name ≡ m.meta.name

abbrev pub name_of : Reconciler → String
name_of r = r.meteor.meta.name

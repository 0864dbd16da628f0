-- ===== src/Cre/Reconcile/Once.antt =====
-- The PipelineRun of a generation of a CustomRuntimeEnvironment is created once.
use meteor_operator.Prelude.{◌≡◌, refl, sym, ap, ◌∙◌, true}
use meteor_operator.Kube.Meta.{key_of}
use meteor_operator.Kube.Client.{Error, ok, err, done, Ends, Ends-bind, Ends-done}
use meteor_operator.Kube.Library.{Library, KeepsKey}
use meteor_operator.Kube.Store.{IsStore}
use meteor_operator.Tekton.{PipelineRun}
use meteor_operator.Api.Cre.{CustomRuntimeEnvironment}
use meteor_operator.Cre.Build.{run_name, run_meta, status_index}
use meteor_operator.Cre.Observe.{observe_run}
use meteor_operator.Cre.Reconcile.Branches.{refresh_lem, reconcile_create}
use meteor_operator.Cre.Reconcile.{
  Api, DeepEqual, submitted, with_index, with_phase, after_get, run_key, reconcile_pipeline_run,
  refresh,
}

module _ {W : Type 0} (lib : Library) (api : Api W) (eq : DeepEqual) where
  -- The cluster is left at `w`.
  abbrev pub LeavesWorld : W → CustomRuntimeEnvironment × W → Type 0
  LeavesWorld w x = x.1 ≡ w

  found-world :
      (cre : CustomRuntimeEnvironment) (run : PipelineRun) (w : W)
      → Ends (LeavesWorld w) (after_get lib api cre (ok run) w)
  unfolding after_get
  found-world cre run w =
      Ends-bind (LeavesWorld w)
        (observe_run lib.conditions (with_index cre) (status_index cre).0 run)
        (λ seen. done (seen, w)) (λ seen e. refl)

  reconciled-world :
      (cre : CustomRuntimeEnvironment) (run : PipelineRun) (w : W)
      → api.pipeline_runs.get (run_key cre) w ≡ (ok run, w)
      → Ends (LeavesWorld w) (reconcile_pipeline_run lib api cre w)
  unfolding reconcile_pipeline_run run_key
  reconciled-world cre run w g = rw g (found-world cre run w)

  refreshed-world :
      (cre : CustomRuntimeEnvironment) (run : PipelineRun) (w : W)
      → api.pipeline_runs.get (run_key cre) w ≡ (ok run, w)
      → Ends (LeavesWorld w) (refresh lib api eq cre w)
  unfolding refresh run_key run_name
  refreshed-world cre run w g =
      Ends-bind (LeavesWorld w) (reconcile_pipeline_run lib api (with_phase cre) w) _
        (λ x e. Ends-done (LeavesWorld w) _ (reconciled-world (with_phase cre) run w g) e)

module _ {W : Type 0} (lib : Library) (api : Api W) (eq : DeepEqual) (keeps : KeepsKey lib)
    (store : IsStore api.pipeline_runs (λ r. key_of r.meta) (λ r. r.spec)) where
  pub submitted-key :
      (cre : CustomRuntimeEnvironment) → key_of (submitted lib api cre).meta ≡ run_key cre
  unfolding submitted run_key run_meta run_name
  submitted-key cre = keeps cre.type_meta cre.meta (run_meta cre)

  same_key :
      (a b : CustomRuntimeEnvironment)
      → a.meta.namespace ≡ b.meta.namespace
      → run_name a ≡ run_name b
      → run_key a ≡ run_key b
  unfolding run_key
  same_key a b p q i = record { name = q i; namespace = p i }

  -- Where the cluster stores runs, a refresh that creates the missing run returns, and a later
  -- refresh that sees the cluster as the first has left it creates nothing: unless it panics, it leaves the
  -- cluster as it is, for as long as the resource is in its namespace and asks for a run of the same
  -- name.
  pub refresh-created_once :
      (cre later : CustomRuntimeEnvironment) (w w₁ w₂ : W) (e : Error) (created : PipelineRun)
      → api.pipeline_runs.get (run_key cre) w ≡ (err e, w₁)
      → e.not_found ≡ true
      → api.pipeline_runs.create (submitted lib api cre) w₁ ≡ (ok created, w₂)
      → later.meta.namespace ≡ cre.meta.namespace
      → run_name later ≡ run_name cre
      → ((c : CustomRuntimeEnvironment) × (refresh lib api eq cre w ≡ done (c, w₂)))
        × Ends (LeavesWorld lib api eq w₂) (refresh lib api eq later w₂)
  refresh-created_once cre later w w₁ w₂ e created g n made space name = (
    (
      _,
      refresh_lem lib api eq cre w
          (reconcile_create lib api eq cre w w₁ w₂ e (ok created) g n made),
    ),
    refreshed-world lib api eq later created w₂ (
        ap (λ k. api.pipeline_runs.get k w₂)
          (same_key later cre space name ∙ sym (submitted-key cre))
        ∙ store.create-get (submitted lib api cre) created w₁ w₂ made),
  )

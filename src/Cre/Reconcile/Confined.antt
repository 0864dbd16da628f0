-- ===== src/Cre/Reconcile/Confined.antt =====
-- What a reconciliation of a CustomRuntimeEnvironment writes.
use meteor_operator.Prelude.{◌≡◌, refl, true, not, sprintf, [], ◌∷◌}
use meteor_operator.Kube.Meta.{NamespacedName, is_unset, key_of}
use meteor_operator.Kube.Client.{Result, ok, err, done, Ends, Ends-if, Ends-bind, Ends-done}
use meteor_operator.Kube.Library.{Library, KeepsKey}
use meteor_operator.Tekton.{PipelineRun}
use meteor_operator.Api.Cre.{CustomRuntimeEnvironment}
use meteor_operator.Cre.Build.{run_name, run_meta, pipeline_of, status_index, desired_run}
use meteor_operator.Cre.Observe.{observe_run}
use meteor_operator.Cre.Reconcile.{
  Api, DeepEqual, submitted, create_run, with_index, with_phase, after_get, run_key,
  reconcile_pipeline_run, refresh, update_status, on_resource, reconcile,
}

-- A run of the pipeline of a resource, under its name for the resource.
abbrev pub IsRunOf : CustomRuntimeEnvironment → PipelineRun → Type 0
IsRunOf cre run =
    (key_of run.meta ≡ run_key cre)
    × (run.spec.pipeline_ref ≡ sprintf ("cre-" ∷ pipeline_of cre.spec.build_type ∷ []))

pub run_key-name : (cre : CustomRuntimeEnvironment) → (run_key cre).name ≡ run_name cre
unfolding run_key
run_key-name cre = refl

-- `P` is still true of the cluster after reads, after status updates of resources, and after the
-- creation of their runs.
pub record Permits {W : Type 0} (P : W → Type 0) (api : Api W) : Type 0 where
  pub cre_get : (k : NamespacedName) (w : W) → P w → P (api.cres.get k w).1
  pub cre_status : (x : CustomRuntimeEnvironment) (w : W) → P w → P (api.cres.update_status x w).1
  pub run_get : (k : NamespacedName) (w : W) → P w → P (api.pipeline_runs.get k w).1
  pub run_create :
      (cre : CustomRuntimeEnvironment) (x : PipelineRun) (w : W)
      → IsRunOf cre x
      → P w
      → P (api.pipeline_runs.create x w).1

module _ {W : Type 0} (lib : Library) (keeps : KeepsKey lib) (api : Api W) (eq : DeepEqual)
    (P : W → Type 0) (permits : Permits P api) where
  submitted-IsRunOf :
      (cre : CustomRuntimeEnvironment) → IsRunOf cre (submitted lib api (with_index cre))
  unfolding submitted run_key run_meta run_name desired_run
  submitted-IsRunOf cre = (keeps cre.type_meta cre.meta (run_meta cre), refl)

  got-keeps :
      (cre : CustomRuntimeEnvironment) (answer : Result PipelineRun) (w : W)
      → P w
      → Ends (λ x. P x.1) (after_get lib api cre answer w)
  unfolding after_get create_run
  got-keeps cre (ok run) w p =
      Ends-bind _ (observe_run lib.conditions (with_index cre) (status_index cre).0 run) _
        (λ seen e. p)
  got-keeps cre (err e) w p =
      Ends-if _ e.not_found _ _
        (permits.run_create cre (submitted lib api (with_index cre)) w (submitted-IsRunOf cre) p) p

  refresh-keeps :
      (cre : CustomRuntimeEnvironment) (w : W) → P w → Ends (λ x. P x.1) (refresh lib api eq cre w)
  unfolding refresh reconcile_pipeline_run run_name
  refresh-keeps cre w p =
      let k : NamespacedName = record { name = run_name cre; namespace = cre.meta.namespace } in
      Ends-bind _ (reconcile_pipeline_run lib api (with_phase cre) w) _ (λ x e.
        Ends-done (λ y. P y.1) _
          (got-keeps (with_phase cre) (api.pipeline_runs.get k w).0 (api.pipeline_runs.get k w).1
            (permits.run_get k w p))
          e)

  resource-keeps :
      (answer : Result CustomRuntimeEnvironment) (w : W)
      → P w
      → Ends (λ x. P x.1) (on_resource lib api eq answer w)
  unfolding on_resource
  resource-keeps (err e) w p = p
  resource-keeps (ok cre) w p = Ends-if _ (not (is_unset cre.meta.deletion_timestamp)) _ _ p (
      Ends-bind _ (refresh lib api eq cre w) _
        (λ x e. permits.cre_status x.0 x.1 (Ends-done (λ y. P y.1) _ (refresh-keeps cre w p) e)))

  -- A statement that the reads, the status updates and the creation of runs keep is true of the
  -- cluster wherever a reconciliation ends.
  pub reconcile-keeps :
      (req : NamespacedName) (w : W) → P w → Ends (λ x. P x.1) (reconcile lib api eq req w)
  unfolding reconcile
  reconcile-keeps req w p =
      resource-keeps (api.cres.get req w).0 (api.cres.get req w).1 (permits.cre_get req w p)

  -- The whole handler, for a resource that is there and stays.
  pub reconcile_found :
      (req : NamespacedName) (cre changed : CustomRuntimeEnvironment) (w w₁ w₂ : W)
      → api.cres.get req w ≡ (ok cre, w₁)
      → is_unset cre.meta.deletion_timestamp ≡ true
      → refresh lib api eq cre w₁ ≡ done (changed, w₂)
      → reconcile lib api eq req w ≡ update_status lib api eq (changed, w₂)
  unfolding reconcile on_resource
  reconcile_found req cre changed w w₁ w₂ g d e = rw (g, d, e) refl

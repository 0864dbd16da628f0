-- ===== src/Meteor/Run/Laws/Names.antt =====
-- controllers/meteor/pipelinerun_reconciler.go, line 27: the name of a PipelineRun of a Meteor.
use meteor_operator.Prelude.{String, ◌≡◌, refl, sym, ap, ◌∙◌, true, some, some-injective, sprintf}
use Prim.Native.String
use mathlib.Core.Path.{subst}
use text.Mathlib.TextLemmas.{append_assoc, append-nil}
use meteor_operator.Prelude.Dashes.{dashless, cut_last, cut_last-append}
use meteor_operator.Kube.Client.{ok}
use meteor_operator.Kube.Library.{Library}
use meteor_operator.Tekton.{PipelineRun, PipelineRunStatus}
use meteor_operator.Api.Meteor.{Meteor}
use meteor_operator.Meteor.State.{Reconciler, Api}
use meteor_operator.Meteor.Build.{Json, resource_name, status_index}
use meteor_operator.Meteor.Run.{
  observed, observe_run, after_get, reconcile_pipeline_run, with_index,
}

resource_name-eq :
    (m : Meteor) (name : String)
    → resource_name m name ≡ String.◌++◌ m.meta.name (String.◌++◌ "-" name)
unfolding resource_name sprintf
resource_name-eq m name = rw (append-nil name) refl

cut_last-resource_name :
    (m : Meteor) (name : String)
    → dashless name ≡ true
    → cut_last (resource_name m name) ≡ some (m.meta.name, name)
cut_last-resource_name m name h =
    ap cut_last (resource_name-eq m name) ∙ cut_last-append m.meta.name name h

-- Two runs of the same name, each of a pipeline whose name has no dash, are of the same pipeline and
-- of Meteors of the same name.
pub resource_name-injective :
    (m n : Meteor) (p q : String)
    → dashless p ≡ true
    → dashless q ≡ true
    → resource_name m p ≡ resource_name n q
    → (m.meta.name ≡ n.meta.name) × (p ≡ q)
resource_name-injective m n p q hp hq e =
    let parts =
      some-injective
        (sym (cut_last-resource_name m p hp) ∙ ap cut_last e ∙ cut_last-resource_name n q hq) in
    (ap (λ t. t.0) parts, ap (λ t. t.1) parts)

-- A dash may belong to the Meteor or to the pipeline.
resource_name-moved_dash :
    (m n : Meteor) (b c : String)
    → n.meta.name ≡ String.◌++◌ m.meta.name (String.◌++◌ "-" b)
    → resource_name n c ≡ resource_name m (String.◌++◌ b (String.◌++◌ "-" c))
resource_name-moved_dash m n b c h =
    resource_name-eq n c
    ∙ ap (λ s. String.◌++◌ s (String.◌++◌ "-" c)) h
    ∙ append_assoc m.meta.name (String.◌++◌ "-" b) (String.◌++◌ "-" c)
    ∙ ap (String.◌++◌ m.meta.name) (append_assoc "-" b (String.◌++◌ "-" c))
    ∙ sym (resource_name-eq m (String.◌++◌ b (String.◌++◌ "-" c)))

module _ {W : Type 0} (lib : Library) (json : Json) (api : Api W) where
  -- The pipeline has a run of the name `k`, which is read.
  abbrev pub Reads :
      Reconciler → (name namespace : String) → PipelineRunStatus → W → W → String → Type 0
  Reads r name namespace status w w' k =
      reconcile_pipeline_run lib json api r name namespace w
      ≡ observed lib json api
          (observe_run lib json api (with_index r name) name k (status_index r.meteor name).0
            status)
          w'

  reconcile_pipeline_run-found :
      (r : Reconciler) (name namespace : String) (run : PipelineRun) (w w' : W)
      → api.pipeline_runs.get
          (record { name = resource_name r.meteor name; namespace = namespace })
          w
        ≡ (ok run, w')
      → Reads r name namespace run.status w w' (resource_name r.meteor name)
  unfolding reconcile_pipeline_run after_get
  reconcile_pipeline_run-found r name namespace run w w' g = rw g refl

  -- When a Meteor is named after another Meteor, a dash and `b`, and the other one has a run of the
  -- pipeline `b`-`c`, then the pipeline `c` of the first Meteor takes that run for its own: it
  -- copies the run's status, whoever owns the run, and creates no run.
  pub reconcile_pipeline_run-foreign :
      (r : Reconciler) (m : Meteor) (b c namespace : String) (run : PipelineRun) (w w' : W)
      → r.meteor.meta.name ≡ String.◌++◌ m.meta.name (String.◌++◌ "-" b)
      → api.pipeline_runs.get
          (record {
            name = resource_name m (String.◌++◌ b (String.◌++◌ "-" c));
            namespace = namespace;
          })
          w
        ≡ (ok run, w')
      → Reads r c namespace run.status w w' (resource_name m (String.◌++◌ b (String.◌++◌ "-" c)))
  reconcile_pipeline_run-foreign r m b c namespace run w w' h =
      subst
        (λ k.
          api.pipeline_runs.get (record { name = k; namespace = namespace }) w ≡ (ok run, w')
          → Reads r c namespace run.status w w' k)
        (resource_name-moved_dash m r.meteor b c h)
        (reconcile_pipeline_run-found r c namespace run w w')

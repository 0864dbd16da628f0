-- ===== src/Operator/Ownership.antt =====
-- Which PipelineRun a CustomRuntimeEnvironment finds under its run's name, when the controllers of
-- Meteors and of CustomRuntimeEnvironments create the runs.
use Prim.Native.String
use text.Mathlib.TextLemmas.{append_assoc, append-nil}
use meteor_operator.Prelude.{
  String, ◌≡◌, ◌⊎◌, refl, sym, ap, ◌∙◌, true, some, some-injective, sprintf, [], ◌∷◌, inl, inr,
}
use meteor_operator.Prelude.Dashes.{dashless, cut_last, cut_last-append}
use meteor_operator.Kube.Meta.{NamespacedName, key_of}
use meteor_operator.Kube.Client.{ok}
use meteor_operator.Tekton.{PipelineRun}
use meteor_operator.Api.Cre.{
  BuildType, import_image, package_list, git_repository, other, CustomRuntimeEnvironment,
}
use meteor_operator.Cre.Build.{pipeline_of, run_name}
use meteor_operator.Cre.Build.Naming.{run_name-stem, run_name-injective, stem_of}
use meteor_operator.Cre.Reconcile.{run_key}
use meteor_operator.Cre.Reconcile.Confined.{IsRunOf, run_key-name}
use meteor_operator.Meteor.Permits as MeteorPermits
use meteor_operator.Operator.{Setup, Process, Reaches}
use meteor_operator.Operator.Life.{Serves, Allows, Reaches-keeps}

-- What stands after the last dash of the name of a resource's run.
abbrev pub last_word : BuildType → String
last_word import_image = "import"
last_word package_list = "list"
last_word git_repository = "gitrepo"
last_word (other _) = ""

abbrev stem_before : CustomRuntimeEnvironment → BuildType → String
stem_before cre import_image = stem_of cre
stem_before cre package_list = String.◌++◌ (stem_of cre) "-package"
stem_before cre git_repository = stem_of cre
stem_before cre (other _) = stem_of cre

cut_last-stem :
    (cre : CustomRuntimeEnvironment) (t : BuildType)
    → cut_last (String.◌++◌ (stem_of cre) (String.◌++◌ "-" (pipeline_of t)))
      ≡ some (stem_before cre t, last_word t)
unfolding dashless
cut_last-stem cre import_image = cut_last-append (stem_of cre) "import" refl
cut_last-stem cre package_list =
    ap cut_last (sym (append_assoc (stem_of cre) "-package" "-list"))
    ∙ cut_last-append (String.◌++◌ (stem_of cre) "-package") "list" refl
cut_last-stem cre git_repository = cut_last-append (stem_of cre) "gitrepo" refl
cut_last-stem cre (other _) = cut_last-append (stem_of cre) "" refl

cut_last-run_name :
    (cre : CustomRuntimeEnvironment)
    → cut_last (run_name cre)
      ≡ some (stem_before cre cre.spec.build_type, last_word cre.spec.build_type)
cut_last-run_name cre = ap cut_last (run_name-stem cre) ∙ cut_last-stem cre cre.spec.build_type

cut_last-owned :
    (owner p : String)
    → dashless p ≡ true
    → cut_last (sprintf (owner ∷ "-" ∷ p ∷ [])) ≡ some (owner, p)
unfolding sprintf
cut_last-owned owner p h = rw (append-nil p) (cut_last-append owner p h)

-- A run of a pipeline, under the pipeline's name for a Meteor.
abbrev pub IsMeteorRun : PipelineRun → Type 0
IsMeteorRun run =
    (owner : String) × (namespace : String) × MeteorPermits.IsRunOf owner namespace run

-- A run that one of the two controllers creates.
abbrev pub IsKnown : PipelineRun → Type 0
IsKnown run = IsMeteorRun run ⊎ ((cre : CustomRuntimeEnvironment) × IsRunOf cre run)

-- A run is found under its own name, and is such a run.
abbrev pub ServesKnown : {W : Type 0} → Setup W → W → Type 0
ServesKnown {W = W} setup w =
    (k : NamespacedName) (run : PipelineRun) (w' : W)
    → setup.cres.pipeline_runs.get k w ≡ (ok run, w')
    → (key_of run.meta ≡ k) × IsKnown run

-- A Meteor's run of the last word of a resource's pipeline, or of a pipeline with a dash.
abbrev pub IsNamesake : CustomRuntimeEnvironment → PipelineRun → Type 0
IsNamesake cre run =
    IsMeteorRun run
    × (dashless run.spec.pipeline_ref ≡ true
        → run.spec.pipeline_ref ≡ last_word cre.spec.build_type)

meteor_run-IsNamesake :
    (cre : CustomRuntimeEnvironment) (run : PipelineRun)
    → run.meta.name ≡ run_name cre
    → IsMeteorRun run
    → IsNamesake cre run
meteor_run-IsNamesake cre run at (owner, namespace, (m, (p, n, ref))) = (
  (owner, namespace, (m, (p, n, ref))),
  λ h.
      let words =
        sym (cut_last-owned owner p (ap dashless (sym ref) ∙ h))
        ∙ ap cut_last (sym n ∙ at)
        ∙ cut_last-run_name cre in
      ref ∙ ap (λ w. w.1) (some-injective words),
)

found_known :
    (cre : CustomRuntimeEnvironment) (run : PipelineRun)
    → key_of run.meta ≡ run_key cre
    → IsKnown run
    → IsRunOf cre run ⊎ IsNamesake cre run
found_known cre run at (inl m) =
    inr (meteor_run-IsNamesake cre run (ap (λ k. k.name) at ∙ run_key-name cre) m)
found_known cre run at (inr (other_cre, (k, ref))) =
    let same_name =
      sym (run_key-name other_cre) ∙ ap (λ k. k.name) (sym k ∙ at) ∙ run_key-name cre in
    inl
      (at, ref ∙ ap (λ p. sprintf ("cre-" ∷ p ∷ [])) (run_name-injective other_cre cre same_name).2)

-- However reconciliations, restarts and edits follow each other: when each run is found under its
-- own name and is one that a controller creates, and no call and no edit changes that, then the run
-- that a CustomRuntimeEnvironment finds under its run's name is of its pipeline, or is the run of a
-- Meteor for a pipeline that has a dash or is the last word of the resource's pipeline. The
-- controller reference leaves names alone, and the server answers a request for a Role, a RoleBinding
-- or a write of a Meteor with that object.
pub Reaches-found :
    {W : Type 0} (setup : Setup W) (Edited : W → W → Type 0) (serves : Serves setup)
    → Allows (ServesKnown setup) setup Edited
    → {a b : Process W} (cre : CustomRuntimeEnvironment) (run : PipelineRun) (w : W)
    → Reaches setup Edited a b
    → ServesKnown setup a.world
    → setup.cres.pipeline_runs.get (run_key cre) b.world ≡ (ok run, w)
    → IsRunOf cre run ⊎ IsNamesake cre run
Reaches-found setup Edited serves allows {b = b} cre run w t known got =
    let (at, is) =
      Reaches-keeps setup Edited serves (ServesKnown setup) allows t known (run_key cre) run w
        got in
    found_known cre run at is

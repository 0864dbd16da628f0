-- ===== src/Cre/Reconcile/Ended.antt =====
-- The phase of the conditions that are written for a run that has ended.
use meteor_operator.Prelude.{
  String, ◌≡◌, refl, ap, ◌∙◌, ◌⊎◌, Bool, true, false, ◌||◌, ◌&&◌, List, ◌==◌, inl, inr, arith,
  if◌then◌else◌,
}
use meteor_operator.Kube.Conditions.{
  Condition, ConditionOps, IsListMap, AreConditionOps, condition_true,
}
use meteor_operator.Tekton.{PipelineRun}
use meteor_operator.Api.Common.{Phase, failed, succeeded}
use meteor_operator.Api.Cre.{
  CustomRuntimeEnvironment, error_pipeline_run_create, pipeline_run_created, image_import_invalid,
  image_import_ready, package_list_build_completed, pipeline_run_completed,
}
use meteor_operator.Api.Cre.Aggregate.{
  holds, phase_of, phase_of-eq-succeeded_iff, phase_of-without_image,
}
use meteor_operator.Cre.Observe.{condition, label_of, on_success, on_failure}
use meteor_operator.Cre.Conditions.{holds-set, holds-remove}

abbrev pub done_message : String
done_message = "The PipelineRun has been completed successfully."

module _ (ops : ConditionOps) (cre : CustomRuntimeEnvironment) where
  open ops use {set_status_condition, remove_status_condition}

  -- The conditions of `cs` once the run is recorded as completed and no longer as created.
  abbrev pub closed : String → List Condition → List Condition
  closed message cs =
      remove_status_condition
        (set_status_condition cs
          (condition cre pipeline_run_completed condition_true "PipelineRunCompleted" message))
        pipeline_run_created

  abbrev pub import_done : Condition
  import_done =
      condition cre image_import_ready condition_true "ImageImportReady"
        "Import succeeded, the image is ready to be used."

  abbrev pub build_done : Condition
  build_done =
      condition cre package_list_build_completed condition_true "PackageListBuildCompleted"
        "Build from Package List succeeded, the image is ready to be used."

  -- What recording a success adds, for each label.
  module _ (run : PipelineRun) (cs : List Condition) where
    pub success_import :
        label_of run ≡ "import"
        → on_success ops cre run cs ≡ set_status_condition (closed done_message cs) import_done
    unfolding on_success
    success_import l = rw l

    pub success_package_list :
        label_of run ≡ "package-list"
        → on_success ops cre run cs ≡ set_status_condition (closed done_message cs) build_done
    unfolding on_success
    success_package_list l = rw l

    pub success_other :
        (label_of run == "import") ≡ false
        → (label_of run == "package-list") ≡ false
        → on_success ops cre run cs ≡ closed done_message cs
    unfolding on_success
    success_other p q = rw (p, q)

module _ {ops : ConditionOps} (laws : AreConditionOps ops) (cre : CustomRuntimeEnvironment)
    (cs : List Condition) (keyed : IsListMap cs) (message : String) where
  holds-closed :
      (t : String)
      → holds t (closed ops cre message cs) ≡ (
          if pipeline_run_created == t
          then false
          else if pipeline_run_completed == t
          then true
          else holds t cs)
  holds-closed t =
      holds-remove laws t pipeline_run_created _ (laws.set-IsListMap cs _ keyed)
      ∙ ap (λ (b : Bool). if pipeline_run_created == t then false else b)
          (holds-set laws t cs _ keyed)

  -- One more condition on top.
  holds-set_closed :
      (c : Condition) (t : String)
      → holds t (ops.set_status_condition (closed ops cre message cs) c) ≡ (
          if c.type == t
          then c.status == condition_true
          else if pipeline_run_created == t
          then false
          else if pipeline_run_completed == t
          then true
          else holds t cs)
  holds-set_closed c t =
      holds-set laws t (closed ops cre message cs) c
        (laws.remove-IsListMap _ pipeline_run_created (laws.set-IsListMap cs _ keyed))
      ∙ ap (λ (b : Bool). if c.type == t then c.status == condition_true else b) (holds-closed t)

-- No error of the two kinds that decide the phase by themselves.
abbrev pub NoError : List Condition → Type 0
NoError cs = (holds error_pipeline_run_create cs ≡ false) × (holds image_import_invalid cs ≡ false)

-- No image has been reported.
abbrev pub NoImage : List Condition → Type 0
NoImage cs = (holds image_import_ready cs ≡ false) × (holds package_list_build_completed cs ≡ false)

abbrev pub BuildsImage : PipelineRun → Type 0
BuildsImage run = (label_of run ≡ "import") ⊎ (label_of run ≡ "package-list")

true_or : (a b : Bool) → a ≡ true → (a || b) ≡ true
true_or a b h = ground arith

or_true : (a b : Bool) → b ≡ true → (a || b) ≡ true
or_true a b h = ground arith

phase_of_if :
    {p : Phase} (b : Bool) (xs ys : List Condition)
    → phase_of xs ≡ p
    → phase_of ys ≡ p
    → phase_of (if b then xs else ys) ≡ p
phase_of_if true xs ys h k = h
phase_of_if false xs ys h k = k

module _ {ops : ConditionOps} (laws : AreConditionOps ops) (cre : CustomRuntimeEnvironment)
    (cs : List Condition) (keyed : IsListMap cs) (run : PipelineRun) where
  pub on_success-succeeded :
      NoError cs → BuildsImage run → phase_of (on_success ops cre run cs) ≡ succeeded
  on_success-succeeded (sound, valid) (inl l) =
      let now = holds-set_closed laws cre cs keyed done_message (import_done ops cre) in
      rw (success_import ops cre run cs l) (
        (phase_of-eq-succeeded_iff _).1 (
          now pipeline_run_completed,
          true_or _ _ (now image_import_ready),
          now pipeline_run_created,
          now error_pipeline_run_create ∙ sound,
          now image_import_invalid ∙ valid,
        ))
  on_success-succeeded (sound, valid) (inr l) =
      let now = holds-set_closed laws cre cs keyed done_message (build_done ops cre) in
      rw (success_package_list ops cre run cs l) (
        (phase_of-eq-succeeded_iff _).1 (
          now pipeline_run_completed,
          or_true _ _ (now package_list_build_completed),
          now pipeline_run_created,
          now error_pipeline_run_create ∙ sound,
          now image_import_invalid ∙ valid,
        ))

  pub on_success-without_image :
      NoImage cs
      → (label_of run == "import") ≡ false
      → (label_of run == "package-list") ≡ false
      → phase_of (on_success ops cre run cs) ≡ failed
  on_success-without_image (no_import, no_build) p q =
      let now = holds-closed laws cre cs keyed done_message in
      rw (success_other ops cre run cs p q) (
        phase_of-without_image _ (now pipeline_run_completed) (now pipeline_run_created)
          (now image_import_ready ∙ no_import) (now package_list_build_completed ∙ no_build))

  -- A condition on top of the closed ones that reports no image.
  set_closed-failed :
      (message : String) (c : Condition)
      → NoImage cs
      → (c.type == pipeline_run_completed) ≡ false
      → (c.type == pipeline_run_created) ≡ false
      → (c.type == image_import_ready && c.status == condition_true) ≡ false
      → (c.type == package_list_build_completed && c.status == condition_true) ≡ false
      → phase_of (ops.set_status_condition (closed ops cre message cs) c) ≡ failed
  set_closed-failed message c (no_import, no_build) p q i b =
      let now = holds-set_closed laws cre cs keyed message c in
      phase_of-without_image _ (ground (arith, now pipeline_run_completed))
        (ground (arith, now pipeline_run_created)) (ground (arith, now image_import_ready))
        (ground (arith, now package_list_build_completed))

  pub on_failure-failed : NoImage cs → phase_of (on_failure ops cre run cs) ≡ failed
  unfolding on_failure
  on_failure-failed none =
      let top = set_closed-failed "The PipelineRun has been completed with a failure!" in
      let now =
        holds-closed laws cre cs keyed "The PipelineRun has been completed with a failure!" in
      phase_of_if (label_of run == "import") _ _ (top _ none refl refl refl refl) (
        phase_of_if (label_of run == "gitrepo") _ _ (top _ none refl refl refl refl) (
          phase_of_if (label_of run == "package-list") _ _ (top _ none refl refl refl refl) (
            phase_of-without_image _ (now pipeline_run_completed) (now pipeline_run_created)
              (now image_import_ready ∙ none.0) (now package_list_build_completed ∙ none.1))))

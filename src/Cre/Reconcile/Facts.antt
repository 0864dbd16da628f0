-- ===== src/Cre/Reconcile/Facts.antt =====
-- The facts that the conditions of a CustomRuntimeEnvironment record, through each edit of the
-- controller.
use meteor_operator.Prelude.{
  String, ◌≡◌, refl, ap, ◌∙◌, Bool, true, false, ◌&&◌, List, [], ◌∷◌, ◌==◌, inl, inr, eq_iff,
  Bool-cases, if◌then◌else◌,
}
use meteor_operator.Kube.Conditions.{
  Condition, ConditionOps, IsListMap, AreConditionOps, condition_true, condition_false,
}
use meteor_operator.Tekton.{PipelineRun, RunCondition}
use meteor_operator.Api.Cre.{
  CustomRuntimeEnvironment, error_pipeline_run_create, pipeline_run_created, image_import_invalid,
  image_import_ready, package_list_build_completed, pipeline_run_completed,
}
use meteor_operator.Api.Cre.Aggregate.{holds, phase_of}
use meteor_operator.Cre.Observe.{label_of, on_success, on_failure, on_condition}
use meteor_operator.Cre.Reconcile.Ended.{
  closed, success_import, success_package_list, success_other,
}
use meteor_operator.Cre.Conditions.{holds-set, holds-remove}
use meteor_operator.Cre.Machine.{
  Facts, Kind, import_run, package_list_run, other_run, Event, unsettled, success, failure, step,
  decide,
}

-- What the conditions record.
unfoldable pub facts : List Condition → Facts
facts cs = record {
  creation_failed = holds error_pipeline_run_create cs;
  image_invalid = holds image_import_invalid cs;
  created = holds pipeline_run_created cs;
  completed = holds pipeline_run_completed cs;
  imported = holds image_import_ready cs;
  built = holds package_list_build_completed cs;
}

pub phase_of-decide : (cs : List Condition) → phase_of cs ≡ decide (facts cs)
unfolding phase_of facts
phase_of-decide [] = refl
phase_of-decide (c ∷ cs) = refl

abbrev noted : Condition → String → Bool → Bool
noted c t b = if c.type == t then c.status == condition_true else b

-- The pipeline of a run, by its label.
abbrev pub kind_of : PipelineRun → Kind
kind_of run =
    if label_of run == "import"
    then import_run
    else if label_of run == "package-list"
    then package_list_run
    else other_run

abbrev pub verdict : PipelineRun → RunCondition → Event
verdict run c =
    if c.status == condition_true && c.type == "Succeeded"
    then success (kind_of run)
    else if c.status == condition_false && c.type == "Succeeded"
    then failure (kind_of run)
    else unsettled

-- One condition more.
abbrev note : Condition → Facts → Facts
note c f = record {
  creation_failed = noted c error_pipeline_run_create f.creation_failed;
  image_invalid = noted c image_import_invalid f.image_invalid;
  created = noted c pipeline_run_created f.created;
  completed = noted c pipeline_run_completed f.completed;
  imported = noted c image_import_ready f.imported;
  built = noted c package_list_build_completed f.built;
}

module _ {ops : ConditionOps} (laws : AreConditionOps ops) (cs : List Condition)
    (keyed : IsListMap cs) where
  facts-set : (c : Condition) → facts (ops.set_status_condition cs c) ≡ note c (facts cs)
  unfolding facts
  facts-set c =
      rw
        (
          holds-set laws error_pipeline_run_create cs c keyed,
          holds-set laws image_import_invalid cs c keyed,
          holds-set laws pipeline_run_created cs c keyed,
          holds-set laws pipeline_run_completed cs c keyed,
          holds-set laws image_import_ready cs c keyed,
          holds-set laws package_list_build_completed cs c keyed,
        )
        refl

  facts-remove :
      facts (ops.remove_status_condition cs pipeline_run_created)
      ≡ record (facts cs) { created = false }
  unfolding facts
  facts-remove =
      rw
        (
          holds-remove laws error_pipeline_run_create pipeline_run_created cs keyed,
          holds-remove laws image_import_invalid pipeline_run_created cs keyed,
          holds-remove laws pipeline_run_created pipeline_run_created cs keyed,
          holds-remove laws pipeline_run_completed pipeline_run_created cs keyed,
          holds-remove laws image_import_ready pipeline_run_created cs keyed,
          holds-remove laws package_list_build_completed pipeline_run_created cs keyed,
        )
        refl

-- A list that is keyed by type and records the facts.
abbrev pub Records : List Condition → Facts → Type 0
Records cs f = IsListMap cs × (facts cs ≡ f)

module _ {ops : ConditionOps} (laws : AreConditionOps ops) where
  pub set-Records :
      (cs : List Condition) (f : Facts) (c : Condition)
      → Records cs f
      → Records (ops.set_status_condition cs c) (note c f)
  set-Records cs f c (keyed, h) =
      (laws.set-IsListMap cs c keyed, facts-set laws cs keyed c ∙ ap (note c) h)

  remove-Records :
      (cs : List Condition) (f : Facts)
      → Records cs f
      → Records (ops.remove_status_condition cs pipeline_run_created) (record f { created = false })
  remove-Records cs f (keyed, h) = (
    laws.remove-IsListMap cs pipeline_run_created keyed,
    facts-remove laws cs keyed ∙ ap (λ (f : Facts). record f { created = false }) h,
  )

  module _ (cre : CustomRuntimeEnvironment) (run : PipelineRun) (cs : List Condition)
      (f : Facts) where
    closed-Records :
        (message : String)
        → Records cs f
        → Records (closed ops cre message cs) (record f { completed = true; created = false })
    closed-Records message h = remove-Records _ _ (set-Records cs f _ h)

    pub on_success-Records :
        Records cs f → Records (on_success ops cre run cs) (step (success (kind_of run)) f)
    on_success-Records h = elim (Bool-cases (label_of run == "import")) [
      | inl p ↦
          let l = (eq_iff (label_of run) "import").0 p in
          rw (success_import ops cre run cs l, l) (set-Records _ _ _ (closed-Records _ h))
      | inr p ↦ elim (Bool-cases (label_of run == "package-list")) [
        | inl q ↦
            let l = (eq_iff (label_of run) "package-list").0 q in
            rw (success_package_list ops cre run cs l, l) (set-Records _ _ _ (closed-Records _ h))
        | inr q ↦ rw (success_other ops cre run cs p q, p, q) (closed-Records _ h)
      ]
    ]

    pub on_failure-Records :
        Records cs f → Records (on_failure ops cre run cs) (step (failure (kind_of run)) f)
    unfolding on_failure
    on_failure-Records h = elim (Bool-cases (label_of run == "import")) [
      | inl p ↦ rw p (set-Records _ _ _ (closed-Records _ h))
      | inr p ↦ elim (Bool-cases (label_of run == "gitrepo")) [
        | inl q ↦
            rw ((eq_iff (label_of run) "gitrepo").0 q) (set-Records _ _ _ (closed-Records _ h))
        | inr q ↦ elim (Bool-cases (label_of run == "package-list")) [
          | inl r ↦ rw (p, q, r) (set-Records _ _ _ (closed-Records _ h))
          | inr r ↦ rw (p, q, r) (closed-Records _ h)
        ]
      ]
    ]

  -- What a run comes to, by its first condition.
  pub on_condition-Records :
      (cre : CustomRuntimeEnvironment) (run : PipelineRun) (f : Facts) (c : RunCondition)
      → Records cre.status.conditions f
      → Records (on_condition ops cre run c) (step (verdict run c) f)
  unfolding on_condition
  on_condition-Records cre run f c h =
      elim (Bool-cases (c.status == condition_true && c.type == "Succeeded")) [
        | inl p ↦ rw p (on_success-Records cre run cre.status.conditions f h)
        | inr p ↦ elim (Bool-cases (c.status == condition_false && c.type == "Succeeded")) [
          | inl q ↦ rw (p, q) (on_failure-Records cre run cre.status.conditions f h)
          | inr q ↦ rw (p, q) h
        ]
      ]

-- ===== src/Cre/TraceTests.antt =====
-- The life of a sample resource, as a run of the machine.
use meteor_operator.Tekton.{PipelineRun}
use meteor_operator.Prelude.{List, ◌≡◌, ◌≢◌, refl, inr, none, some, [], ◌∷◌}
use meteor_operator.Kube.Client.{done, Ends}
use meteor_operator.Kube.Doubles.{
  keyed_ops-AreConditionOps, plain_library, missing_object, constant,
}
use meteor_operator.Api.Common.{running, succeeded}
use meteor_operator.Api.Cre.{CustomRuntimeEnvironment, package_list}
use meteor_operator.Api.Cre.Samples.{packages, sample, condition_of}
use meteor_operator.Cre.Samples.{eq, World, accepting_api, ended}
use meteor_operator.Cre.Build.{run_name}
use meteor_operator.Cre.Machine.{package_list_run, accepted, refused, success, run}
use meteor_operator.Kube.Meta.{key_of}
use meteor_operator.Kube.Store.{store, store-IsStore}
use meteor_operator.Cre.Reconcile.Once.{LeavesWorld, refresh-created_once}
use meteor_operator.Cre.Reconcile.{Api, submitted, refresh}
use meteor_operator.Cre.Reconcile.Branches.{Reports, refresh-created}
use meteor_operator.Cre.Reconcile.Facts.{facts, Records}
use meteor_operator.Cre.Reconcile.Refine.{event, Refines, refresh-Refines}
use meteor_operator.Cre.Reconcile.Trace.{Trace, start, reconciled, Trace-Records, Trace-succeeded}

event_test : event plain_library (accepting_api packages) packages none ≡ accepted
event_test = refl

event_success_test :
    event plain_library (accepting_api packages) packages (some (ended "package-list" "True"))
    ≡ success package_list_run
event_success_test = refl

refresh-Refines_example :
    Ends
      (Refines plain_library (accepting_api packages) eq keyed_ops-AreConditionOps packages none)
      (refresh plain_library (accepting_api packages) eq packages none)
refresh-Refines_example =
    refresh-Refines plain_library (accepting_api packages) eq keyed_ops-AreConditionOps packages
      none tt

-- Reconciled once, when no run was there: the run is created.
begun :
    (c : CustomRuntimeEnvironment) × (refresh plain_library
        (accepting_api packages)
        eq
        packages
        none
      ≡ done (c, some (submitted plain_library (accepting_api packages) packages)))
    × Reports c running
begun =
    refresh-created plain_library (accepting_api packages) keyed_ops-AreConditionOps eq packages
      none none (some (submitted plain_library (accepting_api packages) packages)) missing_object
      (submitted plain_library (accepting_api packages) packages) tt refl refl refl refl refl

trace : Trace plain_library (accepting_api packages) eq packages (accepted ∷ []) begun.0
trace = reconciled none start begun.1

Trace-Records_example :
    Records begun.0.status.conditions (run (accepted ∷ []) (facts packages.status.conditions))
Trace-Records_example =
    Trace-Records plain_library (accepting_api packages) eq keyed_ops-AreConditionOps tt trace

accepted≢refused : accepted ≢ refused
accepted≢refused h = cc

Trace-succeeded_example :
    (x : CustomRuntimeEnvironment × World) × (refresh plain_library
        (accepting_api packages)
        eq
        begun.0
        (some (ended "package-list" "True"))
      ≡ done x)
    × (x.0.status.phase ≡ succeeded)
Trace-succeeded_example =
    Trace-succeeded plain_library (accepting_api packages) eq (some (ended "package-list" "True"))
      package_list_run keyed_ops-AreConditionOps tt (refl, refl) trace (accepted≢refused, tt) refl
      (inr refl)

-- The runs are stored by their keys.
abbrev storing_api : Api (List PipelineRun)
storing_api = record {
  cres = constant CustomRuntimeEnvironment packages;
  pipeline_runs = store (λ (r : PipelineRun). key_of r.meta);
}

abbrev made : PipelineRun
made = submitted plain_library storing_api packages

abbrev reported : CustomRuntimeEnvironment
reported = sample package_list (condition_of "Ready" "True" ∷ [])

same_run : run_name reported ≡ run_name packages
unfolding run_name
same_run = refl

refresh-created_once_example :
    ((c : CustomRuntimeEnvironment) × (refresh plain_library storing_api eq packages []
        ≡ done (c, made ∷ [])))
    × Ends
        (LeavesWorld plain_library storing_api eq (made ∷ []))
        (refresh plain_library storing_api eq reported (made ∷ []))
refresh-created_once_example =
    refresh-created_once plain_library storing_api eq (λ kind owner controlled. refl)
      (store-IsStore (λ (r : PipelineRun). key_of r.meta) (λ r. r.spec)) packages reported [] []
      (made ∷ []) missing_object made refl refl refl refl same_run

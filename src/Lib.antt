-- ===== src/Lib.antt =====
-- The meteor operator: the custom resources and controllers of a Kubernetes operator that builds
-- repositories (Meteors) and Python environments (CustomRuntimeEnvironments) with Tekton.
--
-- The parts of the program and the modules that model them. A controller is a handler,
-- `Reconcile`, that reads one custom resource through the API client, brings the cluster closer to
-- what the resource asks for, and writes the resource's status back. The controllers share the types
-- of the resources and otherwise meet only in the cluster.
--
-- + Api.Common, Api.Cre, Api.Cre.Webhook: api/v1alpha1/common.go,
--   customruntimeenvironment_types.go, customruntimeenvironment_condition_consts.go and
--   customruntimeenvironment_webhook.go. `AggregatePhase` is `aggregate_phase`, with its loop as
--   `scan`; the validators of the webhook keep their names.
-- + Api.Meteor, Api.Shower, Api.Coma: meteor_types.go, shower_types.go and coma_types.go of
--   api/v1alpha1. `IsTTLReached` is `is_ttl_reached`, with the clock as an argument.
-- + Cre: controllers/cre/controller.go and controller_const.go. Cre.Build is the PipelineRun that a
--   resource asks for, Cre.Observe what is read off a run, Cre.Reconcile the handler. Cre.Machine
--   is what a resource's life comes to, which the handler refines (Cre.Reconcile.Refine, Trace).
-- + Meteor: controllers/meteor and controllers/common. Meteor.State is the reconciler's own state,
--   Meteor.Slices the helpers on slices, Meteor.Owner `findOwnerShower`, Meteor.Comas
--   coma_reconciler.go and `EnsureFinalizers`, Meteor.Build and Meteor.Run
--   pipelinerun_reconciler.go, Meteor.Metrics metrics.go, Meteor.Reconcile the handler, and
--   Meteor.Reconcile.Phase the conditions that its loop leaves. Meteor.Permits names the writes
--   of a reconciliation, which Meteor.Reconcile.Confined follows through the handler.
-- + Startup: main.go, api/v1alpha1/meteorconfig_types.go and the `SetupWithManager` methods.
--   Startup.Config is the configuration, Startup.Scheme `init`, Startup.Setup the methods and
--   controller-runtime as a record of functions, Startup.Main `main`. Startup.Main.Views names what
--   the documentation of controller-runtime promises.
-- + Shower: controllers/shower and version/version.go. Shower.Objects are the objects that it writes,
--   Shower.Ensure the course that its reconcilers share (reconcileRole and the others), Shower.Desired
--   what they want, Shower.Route route_reconciler.go, Shower.Actions the reconcilers, and
--   Shower.Reconcile the handler. Shower.Ensure.Writes, Shower.Actions.Confined and
--   Shower.Reconcile.Confined follow what a reconciliation may write. Shower.Tasks reads the
--   actions as tasks, each a kind of object and a place for it, to say what a finished
--   reconciliation leaves to do (Shower.Reconcile.Settle); Shower.Tasks.Cluster says what is
--   assumed of the API server there, and of OpenShift for Routes, and Shower.Tasks.Cluster.Lists
--   has a cluster like that (Cluster.Meets).
-- + Operator: the three controllers that main.go registers, on one cluster, as a relation between the
--   states of the process (`Reaches`): one reconciliation after another, with restarts and edits.
--   Operator.Life follows a statement through all of them, Operator.Ownership the names of the runs.
--   What others do while a reconciliation runs is part of its calls; a panic ends the process.
--
-- The cluster is a state of any type W. The client of one kind of resource is a record of functions
-- on W that return a result and the next state (Kube.Client), so that the definitions thread W through
-- the calls in the order of the source. A call that fails leaves the object that it was to fill in
-- as it was. A handler that may panic (a nil pointer, an index out of range) returns an `Outcome`.
-- Struct fields behind pointers are assigned by returning the changed record. Errors are values
-- with the two things that the code looks at, `IsNotFound` and the message.
--
-- Parameters that stand for code of other repositories: the client, the condition functions of
-- apimachinery with what their documentation promises (Kube.Conditions), the functions of
-- controllerutil and metav1 (Kube.Library), `json.Marshal` (Meteor.Build), the scheme and the manager
-- of controller-runtime (Startup.Scheme, Startup.Setup), and `equality.Semantic.DeepEqual` (Cre.Reconcile). Kube.Doubles has concrete functions for the client
-- and the condition functions, with the proof that they keep the promises; Kube.Store says what the
-- API server promises of the objects that it stores, and has a store.
--
-- Numbers: int64 and its product wrap around (Prelude.Int), times are integers of nanoseconds,
-- generations are natural numbers. The one recursion on fuel is the printing of a number in
-- decimal (Prelude.Numerals): a number n has at most n + 1 digits, which is the fuel. All loops of
-- the program are structural recursions on the slice that they range over.
--
-- Not modelled: logging, the parsing of flags, the registration of list types and of the collectors
-- of metrics, and the generated deep copies, which are the identity on the values of the model. Objects
-- of Kubernetes, OpenShift and Tekton have the fields that the operator sets, reads or
-- compares by name, and no others.
pub mod Prelude
pub mod Kube
pub mod Tekton
pub mod Api
pub mod Cre
pub mod Meteor
pub mod Shower
pub mod Startup
pub mod Operator

-- ===== src/Cre.antt =====
-- controllers/cre: the controller of CustomRuntimeEnvironments.
pub mod Build
pub mod Observe
pub mod Conditions
pub mod Machine
pub mod Reconcile
pub mod Samples
mod Tests
mod TraceTests
mod NameTests

-- ===== src/Meteor.antt =====
-- controllers/meteor and controllers/common: the controller of Meteors, and its metrics.
pub mod Slices
pub mod Title
pub mod State
pub mod Metrics
pub mod Owner
pub mod Permits
pub mod Comas
pub mod Build
pub mod Run
pub mod Reconcile
pub mod Samples
pub mod Tests
pub mod Runs
mod NameTests
mod ShowerTests
mod PhaseTests
mod WriteTests

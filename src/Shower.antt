-- ===== src/Shower.antt =====
-- controllers/shower: the controller of Showers.
pub mod Objects
pub mod Ensure
pub mod Desired
pub mod Route
pub mod Actions
pub mod Tasks
pub mod Reconcile
mod Tests
mod RoleTests
mod ClusterTests

-- ===== src/Api.antt =====
-- The custom resources of the operator (api/v1alpha1).
pub mod Common
pub mod Cre
pub mod Meteor
pub mod Shower
pub mod Coma

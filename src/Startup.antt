-- ===== src/Startup.antt =====
-- main.go: the operator's scheme, configuration, controllers and manager.
pub mod Config
pub mod Scheme
pub mod Setup
pub mod Main
mod Tests

-- ===== src/Controller.antt =====
-- controllers/sosreport_controller.go
pub mod State
pub mod Config
pub mod Select
pub mod Update
pub mod Template
pub mod Schedule
pub mod Track
pub mod Run
pub mod Reconcile
pub mod Frame
pub mod Lifecycle

-- ===== src/Controller.antt =====
-- internal/controller: the reconciler.
pub mod Keys
pub mod Records
pub mod Outcomes
pub mod Results
pub mod Zones
pub mod Statuses
pub mod Reconcile
pub mod Commit
pub mod Conditions

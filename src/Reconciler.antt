-- ===== src/Reconciler.antt =====
-- The reconciler, `CrabhelmReconciler` (src/reconciler.ts): it drives one claw towards its desired
-- state, and the removal of a claw through its stages.
pub mod Provider
pub mod Removal
pub mod Upkeep
pub mod Round
pub mod Reports
pub mod Progress
pub mod Refinement
pub mod Nearer
pub mod Completion
pub mod Evidence
pub mod Failures
mod Samples
mod Tests

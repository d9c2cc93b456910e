-- ===== src/Coordinator.antt =====
-- The coordinator of one claw, `CrabhelmClawCoordinator` (worker/claw-coordinator.ts): the grants,
-- the runs and the tickets of its runtime, and the jobs with their delivery.
pub mod Sql
pub mod Tables
pub mod Grants
pub mod Jobs
pub mod Delivery
pub mod Runtime
pub mod Completion
pub mod Rows
pub mod Soundness
pub mod Alarms
pub mod Offers
pub mod Answers
pub mod Calls
pub mod Interleaving
pub mod Attempts
mod Tests

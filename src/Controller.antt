-- ===== src/Controller.antt =====
-- The issue of governed invocations, `GovernanceController` (worker/governance-controller.ts), on the
-- registry of governance and the claw's coordinator.
pub mod Arguments
pub mod Prepare
pub mod Issue
pub mod Execute
pub mod Tests

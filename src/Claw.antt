-- ===== src/Claw.antt =====
-- A claw: the desired state that operators set and the observed state that the reconciler writes
-- (src/types.ts), and the operations on one record (src/domain.ts).
pub mod Types
pub mod Fleet
pub mod Policies
pub mod Telemetry
pub mod Models
pub mod Create
pub mod Samples
mod Tests

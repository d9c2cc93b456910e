-- ===== src/Governance.antt =====
-- Identity and delegation: principals, personas, capabilities, skills and OAuth connections
-- (src/governance-types.ts), and the decisions on them (src/governance.ts). Each child is about
-- one decision, with its theorems below it.
pub mod Types
pub mod Records
pub mod Actor
pub mod Ingress
pub mod Skills
pub mod Capabilities
pub mod Samples
pub mod Tests

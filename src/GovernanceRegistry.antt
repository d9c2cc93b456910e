-- ===== src/GovernanceRegistry.antt =====
-- The registry of identities and delegations, `GovernanceRegistry` (src/governance-registry.ts):
-- its stores, and one child for each kind of record that it keeps.
pub mod Types
pub mod Stores
pub mod Confirmations
pub mod Invocations
pub mod OAuthStates
pub mod Principals
pub mod Personas
pub mod Skills
pub mod Connections
pub mod Samples
mod Tests

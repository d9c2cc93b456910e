-- ===== src/GovernanceRegistry/Tests.antt =====
-- The registry on sample stores.
mod Delegation
mod Identity

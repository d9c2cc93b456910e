-- ===== src/Governance/Records.antt =====
-- How principals and personas are built from an operator's input (src/governance.ts). An input
-- field that the request leaves out, or that is not a text where one is wanted, is `none`.
pub mod Fields
pub mod Parts
pub mod Persona
pub mod Principal
pub mod Shape
pub mod Revision

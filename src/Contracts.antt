-- ===== src/Contracts.antt =====
-- The contracts that Control Plane and Router share (contracts/*.go).
pub mod Event
pub mod Sequence
pub mod Trace
pub mod Stream
pub mod Lineage
mod Examples

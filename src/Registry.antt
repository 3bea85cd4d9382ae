-- ===== src/Registry.antt =====
-- The provider-neutral instance registry (registry/*.go).
pub mod Errors
pub mod Url
pub mod Target
pub mod Endpoint
pub mod Instance
pub mod Revision
pub mod Snapshot
pub mod Change
pub mod Watch
pub mod Examples

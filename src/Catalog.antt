-- ===== src/Catalog.antt =====
-- apps/control-plane/internal/catalog: the agent catalog.
pub mod Model
pub mod Select
pub mod Store
pub mod Releases
pub mod ReleaseService
pub mod Examples

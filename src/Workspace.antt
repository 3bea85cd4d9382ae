-- ===== src/Workspace.antt =====
-- The Workspace component of the control plane (apps/control-plane/internal/workspace).
pub mod Model
pub mod Store
pub mod Eligibility
pub mod Authorize
pub mod Service
pub mod Examples

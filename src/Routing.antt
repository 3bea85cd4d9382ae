-- ===== src/Routing.antt =====
-- Choice of an instance in the A2A router (apps/a2a-router/internal/routing).
pub mod Selector
pub mod Session
pub mod Table
mod Examples

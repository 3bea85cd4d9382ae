-- ===== src/Nested.antt =====
-- apps/a2a-router/internal/nested: agents that call other agents.
pub mod Binding
pub mod Context
mod Examples

-- ===== src/State.antt =====
-- The event log and the projection built from it (internal/state).
pub mod Event
pub mod Filter
pub mod Table
pub mod Store
pub mod Handlers
pub mod Records
pub mod Project

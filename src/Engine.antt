-- ===== src/Engine.antt =====
-- The decisions of the engine on stories (internal/engine): escalation and splitting.
pub mod Tier
pub mod Route
mod AssignTests
mod WatchdogTests
mod ReviewGateTests
mod AttemptsTests
pub mod Assign
pub mod Watchdog
pub mod Attempts
pub mod ReviewGate
pub mod Rates
pub mod Apply
pub mod Split
pub mod Dispatch
mod Tests
mod SplitTests

-- ===== src/Supervisor.antt =====
-- internal/supervisor: the state machine around the core's process.
pub mod State
pub mod Lifecycle
pub mod Crash
pub mod Transitions
pub mod NoRestart
pub mod Starting
pub mod Replacement
mod Examples

-- ===== src/Service/Capture.antt =====
-- internal/service/capture_transition.go and the parts of runtime.go that it calls: switching the capture of
-- the machine's traffic between off, the system proxy and TUN, and the way back when a switch fails.
pub mod Action
pub mod State
pub mod Core
pub mod Runtime
pub mod Prepare
pub mod Handler
pub mod Steps
pub mod Moves
pub mod Applied
pub mod Committed
pub mod Switched
pub mod Outcome
pub mod Rollback
pub mod Handled
pub mod Managed
pub mod Composed
pub mod Health
mod Examples

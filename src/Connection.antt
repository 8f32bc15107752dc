-- ===== src/Connection.antt =====
-- internal/connection: the admission of connection changes, one at a time.
pub mod Policy
pub mod Coordinator
pub mod Queue
pub mod Supersession
pub mod System
pub mod Invariant
pub mod Safety
pub mod Admission
pub mod Drain
mod Examples

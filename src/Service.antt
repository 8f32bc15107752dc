-- ===== src/Service.antt =====
-- internal/service: the parts of the service that keep a state of their own.
pub mod Replay
pub mod Lease
pub mod Outbound
pub mod Failover
pub mod Routing
pub mod Capture
mod Examples

-- ===== src/Network.antt =====
-- internal/network: the network resources that Navo creates for a TUN session, and their journal.
pub mod Journal
pub mod Manager
pub mod Recovery
pub mod Activation
pub mod Coverage
pub mod Rollback
pub mod Restore
pub mod Applying
pub mod Crash
pub mod Session
pub mod Deactivate
pub mod Released
pub mod Restart
pub mod Readable
pub mod Writing
pub mod Plans
pub mod Recovers
pub mod Machine
mod Examples

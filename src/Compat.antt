-- ===== src/Compat.antt =====
-- internal/domain and internal/compatibility: what an endpoint is, and which core can run it.
pub mod Spec
pub mod Endpoint
pub mod Resolver
pub mod Leaves
pub mod Validation
pub mod Resolution
mod Examples

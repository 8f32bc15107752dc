-- ===== src/NetworkEnv.antt =====
-- internal/networkenv: the snapshot of the network environment, and the findings drawn from it.
pub mod Model
pub mod Analyzer
pub mod Verdict
pub mod Store
pub mod Findings
pub mod Distinct
pub mod Health
mod Examples

-- ===== src/SelfHeal.antt =====
-- internal/selfheal: repairs of known faults, within a budget and behind a circuit breaker.
pub mod Event
pub mod Budget
pub mod Plan
pub mod Registry
pub mod Engine
pub mod Intake
mod Examples

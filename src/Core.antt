-- ===== src/Core.antt =====
-- The pure package core/timekpr_hub_core, shared by the hub and the agent.
pub mod Convergence
pub mod IntervalUnion
pub mod AllowedHours
pub mod Calendar
pub mod Models
pub mod EffectivePolicy

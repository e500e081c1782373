-- ===== src/Agent.antt =====
-- The agent, agent/timekpr_hub_agent, which runs beside timekprd on each machine.
pub mod Timekpr
pub mod PolicyPush
pub mod State
pub mod Tick
pub mod HubClient
pub mod Config
pub mod Cli

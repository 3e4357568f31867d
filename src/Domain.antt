-- ===== src/Domain.antt =====
-- core/domain: the entities, their enumerations and the state machines over them.
pub mod Events
pub mod Missions
pub mod Tasks
pub mod Workers
pub mod Agents
pub mod Plans
pub mod Approvals
pub mod Executions
pub mod Samples

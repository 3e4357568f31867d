-- ===== src/Missions.antt =====
-- The services for missions: core/application/mission_service.py and mission_orchestrator.py.
pub mod Service
pub mod Orchestrator
pub mod Samples

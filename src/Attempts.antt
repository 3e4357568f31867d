-- ===== src/Attempts.antt =====
-- The attempts of the tasks, under all the operations that change rows of tasks: the scheduler
-- (core/application/task_scheduler.py), the workers (core/application/worker_coordinator.py) and the
-- orchestrator (core/application/mission_orchestrator.py).
pub mod Bounded
pub mod Ends
pub mod Sessions
pub mod Scheduling
pub mod Workers
pub mod Runs
pub mod Moves
pub mod Completion
pub mod Failure
pub mod Recovery
pub mod Samples

-- ===== src/Attempts/Samples.antt =====
-- A task that is queued, claimed by a worker and failed.
use aura_automated_user_rag.Base.{[], refl, arith}
use aura_automated_user_rag.Domain.Missions.{MissionStatus}
use aura_automated_user_rag.Domain.Tasks.{TaskStatus}
use aura_automated_user_rag.Domain.Samples.{ambient, task_of, database_of}
use aura_automated_user_rag.Store.{Database}
use aura_automated_user_rag.Scheduler.{schedule_ready_tasks}
use aura_automated_user_rag.Missions.Orchestrator.{add_task}
use aura_automated_user_rag.Attempts.Runs.{Runs, start, then_step, added, scheduled}

abbrev empty : Database
empty = database_of MissionStatus.executing [] []

abbrev planned : Database
planned = (add_task ambient (task_of 2 TaskStatus.pending) empty).1

abbrev queued : Database
queued = (schedule_ready_tasks ambient 1 planned).1

run : Runs empty queued
run =
    then_step (then_step start (added ambient (task_of 2 TaskStatus.pending) refl (omega arith)))
      (scheduled ambient 1)

-- ===== src/Lib.antt =====
-- AURA, an automated user and retrieval agent: a control plane that plans missions, turns them into
-- a graph of tasks, and lets workers execute the tasks under leases.
--
-- The parts and how they interact. A mission is created, planned by a model, approved and
-- executed under its state machine (core/domain/missions). Its tasks and their dependencies are stored through the
-- orchestrator, which admits no cycle (core/domain/dag). The scheduler queues the tasks whose
-- dependencies have succeeded. Workers claim queued tasks, hold a lease while they execute, and
-- complete, fail or recover them. A task is executed in an environment by the run of an agent, in
-- which a model decides and tools act through a gateway that asks the policy of the agent, on
-- context that the retrieval finds. All of them share one database and meet only there, each inside
-- a unit of work.
--
-- The files.
--   Base         helpers: lists, tables of rows under a key, tests, results and exceptions, and
--                histories of a state machine
--   Domain       core/domain: Missions, Tasks, Workers, Plans, Approvals, Events, Executions
--                and Agents (with Runs, Tools and Workflows); each `transition` is the method `transition` of the state
--                machine, and `valid_transitions` its table
--   Dag          core/domain/dag/validator.py: `validate_new_dependency`, with `is_cyclic` as the
--                nested function of that name
--   Store        core/infrastructure/database/repositories.py: a `Database` holds a list of rows for
--                each table; a `Session` holds what is committed and what is pending. TaskRows and
--                Rows have one function for each method of the repositories (`claim_task`,
--                `try_transition_status`, `get_task`, `update_task` and so on), RunRows those of agent runs
--                with what their table refuses, AgentRows those of
--                environments and calls of tools, PlanRows those of plans, and Work has the unit of work: `with_uow` is the
--                `async with` block, `commit` is its method
--   Execution    Paths is core/infrastructure/execution/paths.py, Service is
--                core/application/execution_service.py: `create_environment`, `execute_command` and
--                `cleanup_environment`
--   Gateway      core/application/tool_gateway.py: Calls has `execute_tool`, Files and Commands have
--                the tools; a `Host` is what the tools ask of the machine
--   Runtime      core/application/agent_runtime.py: Loop has `run`, with `round` as the body of its
--                loop; Finish has `complete_run` and `fail_run`
--   Retrieval    core/application/rag/service.py: Search has the strategies, Assembly has
--                `process_results`, `apply_token_budget` and `retrieve_context`, and Builders the
--                queries of ContextAssemblyService
--   Scheduler    core/application/task_scheduler.py: `schedule_ready_tasks`
--   Coordinator  core/application/worker_coordinator.py: `register`, `set_worker_status`; Claim has
--                `claim_next_task`, Lease has `renew_lease`, `assert_ownership` and `release_lease`,
--                Finish has `complete_task` and `fail_task`, Recover has `recover_stale`, and Execute
--                has `execute_claimed` with the services that the factories make as arguments
--   Missions     Service is core/application/mission_service.py and Orchestrator is
--                core/application/mission_orchestrator.py, a function for each method
--   Planner      core/application/planner_agent.py: `generate_plan`
--   Orphans      core/application/orphan_recovery.py: `recover_orphans`
--   Attempts     the operations on tasks together, as a relation of steps between databases
-- The modules named Samples evaluate the definitions on concrete data.
--
-- Conventions. Identifiers and times are numbers. What an operation draws from `uuid4()` and
-- `utc_now()` comes from an `Ambient`, by the position of the draw. An operation on the database
-- returns its result, or the exception, and the database that is durable afterwards. Rows that
-- another transaction has locked are told by the attribute `locked` of a coordinator, since
-- `claim_task` skips them. The other operations run in transactions of their own, one after the
-- other: an interleaving is a sequence of them.
--
-- The tables of core/infrastructure/database/models.py. An insert of an agent run looks at its foreign
-- keys, and an insert or an update of one at the type of its result; the other writes are taken to
-- fit their tables.
--
-- Bounds and fuel. Python's recursion limit is the argument `depth` of the validator; twice one more
-- than the number of dependencies is enough, since the search enters no task twice. The loop of
-- an agent has `enough` rounds: each allowed iteration, and as many failures in a row before each as
-- the policy admits. The planner has its two attempts. Every other loop is over a list.
--
-- Not modelled. The sandbox itself, the worktrees and the collector of artifacts are parameters, as
-- are the file system, git and the walks of directories and of the repository, the forge, the
-- language model and `os.path`. Not here yet are the verification engine and, of the coordinator, its
-- loops and its shutdown. The processes, HTTP, metrics,
-- logging, forges and language models do input and output. The text of an exception is left out
-- where it is built from data, the texts of the prompts are, a percentage is a fraction and a
-- duration a whole number where the source has a floating-point number, and a relevance is of any
-- type with an order.
pub mod Base
pub mod Domain
pub mod Dag
pub mod Store
pub mod Execution
pub mod Gateway
pub mod Runtime
pub mod Retrieval
pub mod Scheduler
pub mod Coordinator
pub mod Missions
pub mod Planner
pub mod Orphans
pub mod Attempts

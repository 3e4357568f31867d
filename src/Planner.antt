-- ===== src/Planner.antt =====
-- core/application/planner_agent.py: `generate_plan`. The answers of the model, parsed, and the texts
-- of errors are the fields of a `Provider`; the texts of the prompts are left out.
pub mod Acyclic
pub mod Supersedes
pub mod Samples
use aura_automated_user_rag.Base.{
  ℕ, zero, suc, ◌+◌, Bool, String, ◌≟◌, string_eq, ◌||◌, ◌&&◌, ◌==◌, not, Option, none, some, List,
  [], ◌∷◌, ◌++◌, filter, Result, ok, raise, Exception, value_error, runtime_error, if◌then◌else◌,
}
use Prim.Native.String.{◌++◌ as append}
use aura_automated_user_rag.Domain.Events.{Ambient}
use aura_automated_user_rag.Domain.Missions.{Mission, MissionStatus, mission_status_eq}
use aura_automated_user_rag.Domain.Tasks.{TaskDependency}
use aura_automated_user_rag.Domain.Plans.{
  PlanStatus, plan_status_eq, PlanTask, PlannerOutput, EngineeringPlan,
}
use aura_automated_user_rag.Dag.{validate_new_dependency}
use aura_automated_user_rag.Store.{Database}
use aura_automated_user_rag.Store.Work.{
  Uow, pure, throw, reads, writes, commit, with_uow, ◌>>=◌, ◌>>◌, Script,
}
use aura_automated_user_rag.Store.Rows.{get_mission_row}
use aura_automated_user_rag.Store.PlanRows.{create_plan, plans_of_mission, update_plan}

-- A response, and what its content parses to, with the exception where it does not.
pub record Response : Type 0 where
  pub provider : String
  pub model : String
  pub output : Result PlannerOutput

-- `generate` is asked at an attempt with the last error; `contexts` fetches the two contexts, and
-- `explain` is the text that the `except` clauses make of an exception.
pub record Provider : Type 0 where
  pub contexts : Mission → Result (Unit {0})
  pub generate : Mission → ℕ → Option String → Result Response
  pub explain : Exception → String
  pub last_error : Option String → String

-- `title_to_id`: of tasks with the same title the last one counts.
abbrev pub first_of : Option ℕ → Option ℕ → Option ℕ
first_of (some a) other = some a
first_of none other = other

unfoldable pub title_to_id : Ambient → ℕ → List PlanTask → String → Option ℕ
title_to_id g k [] title = none
title_to_id g k (t ∷ ts) title =
    first_of (title_to_id g (k + 1) ts title) (if t.title ≟ title then some (g.uuid k) else none)

abbrev pub known_id : String → Option ℕ → Result ℕ
known_id title none =
    raise (value_error (append "Dependency " (append title " not found in tasks")))
known_id title (some id) = ok id

-- The dependencies of a task before those that follow, unless one of them raises.
abbrev pub prepend :
    Result TaskDependency → Result (List TaskDependency) → Result (List TaskDependency)
prepend (raise e) rest = raise e
prepend (ok dep) (raise e) = raise e
prepend (ok dep) (ok rest) = ok (dep ∷ rest)

abbrev pub dependency_on : ℕ → Result ℕ → Result TaskDependency
dependency_on t_id (raise e) = raise e
dependency_on t_id (ok d_id) = ok (record { task_id = t_id; depends_on_task_id = d_id })

module _ (ids : String → Option ℕ) where
  abbrev pub deps_of : ℕ → List String → Result (List TaskDependency) → Result (List TaskDependency)
  deps_of t_id [] rest = rest
  deps_of t_id (d_title ∷ titles) rest =
      prepend (dependency_on t_id (known_id d_title (ids d_title))) (deps_of t_id titles rest)

  -- The identifier of the task is always there: `ids` is made of the same tasks.
  abbrev pub deps_with :
      Result ℕ → List String → Result (List TaskDependency) → Result (List TaskDependency)
  deps_with (raise e) titles rest = raise e
  deps_with (ok t_id) titles rest = deps_of t_id titles rest

  abbrev pub all_deps : List PlanTask → Result (List TaskDependency)
  all_deps [] = ok []
  all_deps (t ∷ ts) = deps_with (known_id t.title (ids t.title)) t.dependencies (all_deps ts)

-- The dependencies of a plan, under the identifiers that are drawn for its titles.
unfoldable pub plan_dependencies : Ambient → PlannerOutput → Result (List TaskDependency)
plan_dependencies g output = all_deps (title_to_id g 1 output.tasks) output.tasks

abbrev pub differs : TaskDependency → TaskDependency → Bool
differs d existing =
    not ((existing.task_id == d.task_id) && (existing.depends_on_task_id == d.depends_on_task_id))

-- Each dependency is validated against the others.
abbrev pub and_also : Result (Unit {0}) → Result (Unit {0}) → Result (Unit {0})
and_also (raise e) rest = raise e
and_also (ok _) rest = rest

unfoldable pub validate_each : ℕ → List TaskDependency → List TaskDependency → Result (Unit {0})
validate_each depth deps [] = ok tt
validate_each depth deps (d ∷ ds) =
    and_also (validate_new_dependency depth d (filter (differs d) deps))
      (validate_each depth deps ds)

-- A plan that was already made is superseded.
abbrev pub is_current : EngineeringPlan → Bool
is_current p = (p.status ≟ PlanStatus.generated) || (p.status ≟ PlanStatus.validated)

abbrev pub supersede_plan : EngineeringPlan → Database → Database
supersede_plan p d =
    if is_current p then update_plan (record p { status = PlanStatus.superseded }) d else d

unfoldable pub supersede : List EngineeringPlan → Database → Database
supersede [] d = d
supersede (p ∷ ps) d = supersede ps (supersede_plan p d)

abbrev pub begin_planning : ℕ → Option Mission → Uow Mission
begin_planning mission_id none = throw (value_error "Mission not found")
begin_planning mission_id (some mission) =
    if not (mission.status ≟ MissionStatus.planning)
    then throw (value_error "Mission cannot be planned")
    else do
      previous ← reads (plans_of_mission mission_id)
      writes (supersede previous)
      commit
      pure mission

module _ (depth : ℕ) (gs : ℕ → Ambient) (llm : Provider) (mission_id : ℕ) where
  abbrev pub validated_plan : ℕ → Response → PlannerOutput → EngineeringPlan
  validated_plan k resp output = record {
    id = (gs k).uuid 0;
    mission_id = mission_id;
    planner_agent_id = "planner-v1";
    planner_version = "1.0.0";
    provider = resp.provider;
    model = resp.model;
    output = output;
    status = PlanStatus.validated;
    created_at = (gs k).now 0;
  }

  abbrev pub rejected_plan : ℕ → Option String → EngineeringPlan
  rejected_plan k last_error = record {
    id = (gs k).uuid 0;
    mission_id = mission_id;
    planner_agent_id = "planner-v1";
    planner_version = "1.0.0";
    provider = "unknown";
    model = "unknown";
    output = record {
      summary = append "Failed to generate valid plan. Last error: " (llm.last_error last_error);
      assumptions = [];
      risks = [];
      tasks = [];
      validation_strategy = record { approach = "none"; tests_required = Bool.false };
    };
    status = PlanStatus.rejected;
    created_at = (gs k).now 0;
  }

  abbrev pub store_plan : EngineeringPlan → Database → Database
  store_plan plan d = (with_uow (writes (create_plan plan) >> commit) d).1

  abbrev pub validated_deps : Result (List TaskDependency) → Result (Unit {0})
  validated_deps (raise e) = raise e
  validated_deps (ok deps) = validate_each depth deps deps

  -- The `try` statement up to the plan: the output, if all of its checks pass.
  abbrev pub checked : PlannerOutput → Result (Unit {0}) → Result PlannerOutput
  checked output (raise e) = raise e
  checked output (ok _) = ok output

  abbrev pub check_output : ℕ → Result PlannerOutput → Result PlannerOutput
  check_output k (raise e) = raise e
  check_output k (ok output) = checked output (validated_deps (plan_dependencies (gs k) output))

  -- What an attempt leads to: the plan, or the next attempt with the error.
  abbrev pub end_attempt :
      (Option String → Script EngineeringPlan)
      → ℕ
      → Response
      → Result PlannerOutput
      → Script EngineeringPlan
  end_attempt retry k resp (raise e) d = retry (some (llm.explain e)) d
  end_attempt retry k resp (ok output) d =
      let plan = validated_plan k resp output in (ok plan, store_plan plan d)

  abbrev pub respond :
      (Option String → Script EngineeringPlan) → ℕ → Result Response → Script EngineeringPlan
  respond retry k (raise e) d = (raise e, d)
  respond retry k (ok resp) d = end_attempt retry k resp (check_output k resp.output) d

  -- `for attempt in range(self.max_retries)` from the k-th attempt on, and what follows the loop.
  unfoldable pub attempts : Mission → ℕ → ℕ → Option String → Script EngineeringPlan
  attempts mission zero k last_error d = (
    raise (runtime_error (append "Planner failed: " (llm.last_error last_error))),
    store_plan (rejected_plan k last_error) d,
  )
  attempts mission (suc left) k last_error d =
      respond (attempts mission left (k + 1)) k (llm.generate mission k last_error) d

  abbrev pub with_contexts : Mission → Result (Unit {0}) → Script EngineeringPlan
  with_contexts mission (raise e) d = (raise e, d)
  with_contexts mission (ok _) d = attempts mission 2 0 none d

  abbrev pub plan_mission : Result Mission × Database → Result EngineeringPlan × Database
  plan_mission (raise e, d) = (raise e, d)
  plan_mission (ok mission, d) = with_contexts mission (llm.contexts mission) d

  -- `generate_plan`
  unfoldable pub generate_plan : Script EngineeringPlan
  generate_plan d =
      plan_mission (with_uow (reads (get_mission_row mission_id) >>= begin_planning mission_id) d)

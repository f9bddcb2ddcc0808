-- ===== src/Examples/Scheduling.antt =====
-- lib/taskScheduler.ts, lib/taskRouting.ts and lib/dispatchPlanner.ts on a small backlog.
use orc_state.Base.{true, List, [], ◌∷◌, none, some, String, ◌≡◌, refl, All}
use orc_state.Model.Task.{Task, TaskStatus, Priority, Feature}
use orc_state.Model.Agent.{Agent, AgentStatus, AgentRole}
use orc_state.Routing.{TaskLike, can_agent_execute_task}
use orc_state.Routing.Eligible.{Eligible, can_agent_execute_task_lem}
use orc_state.Scheduler.{by_agent, tasks_of, next_eligible_task_from_backlog, agent_like}
use orc_state.Scheduler.Choice.{IsBest, eligible_in, next_eligible_task_IsBest}
use orc_state.Scheduler.Ready.{IsDispatchable, next_eligible_task-IsDispatchable}
use orc_state.Dispatch.{build_dispatch_plan, eligible_agents}
use orc_state.Dispatch.Plan.{AllDistinct, refs_of, schedule, Suits, build_dispatch_plan-Suits}

abbrev task : String → TaskStatus → Priority → List String → Task
task ref status priority depends_on = record {
  ref = ref;
  title = "title";
  status = status;
  task_type = none;
  priority = some priority;
  planning_state = none;
  required_capabilities = none;
  required_provider = none;
  depends_on = some depends_on;
  attempt_count = none;
  requeue_eligible_after = none;
  blocked_reason = none;
  owner = none;
  description = none;
  acceptance_criteria = none;
  review_level = none;
  merge_strategy = none;
  model = none;
  delegated_by = none;
  spec_revision = none;
  created_at = none;
  updated_at = none;
}

abbrev backlog : List Feature
backlog =
    record {
      ref = "f";
      title = "feature";
      tasks =
          task "a" TaskStatus.done Priority.normal []
          ∷ task "b" TaskStatus.todo Priority.normal []
          ∷ task "c" TaskStatus.todo Priority.high ("a" ∷ [])
          ∷ task "d" TaskStatus.todo Priority.critical ("b" ∷ [])
          ∷ [];
    }
    ∷ []

abbrev agent : String → Agent
agent id = record {
  agent_id = id;
  provider = "claude";
  status = AgentStatus.idle;
  role = some AgentRole.worker;
  capabilities = none;
  session_handle = none;
  last_heartbeat_at = none;
}

-- The task of the highest rank whose dependencies are done.
next_eligible_task_IsBest_example :
    (t : Task) × (t.ref ≡ "c")
    × IsBest (eligible_in 10 [] (by_agent (agent "alice")) backlog) (tasks_of backlog) t
unfolding next_eligible_task_from_backlog can_agent_execute_task
next_eligible_task_IsBest_example =
    next_eligible_task_IsBest 10 [] (by_agent (agent "alice")) backlog {ref = "c"} refl

next_eligible_task-IsDispatchable_example :
    (t : Task) × (t.ref ≡ "c") × IsDispatchable 10 [] (by_agent (agent "alice")) backlog t
unfolding next_eligible_task_from_backlog can_agent_execute_task
next_eligible_task-IsDispatchable_example =
    next_eligible_task-IsDispatchable 10 [] (by_agent (agent "alice")) backlog {ref = "c"} refl

abbrev plain : TaskLike
plain = record {
  task_type = some "refactor";
  owner = none;
  required_provider = none;
  required_capabilities = some ("git" ∷ []);
}

abbrev free : TaskLike
free = record {
  task_type = some "refactor";
  owner = none;
  required_provider = none;
  required_capabilities = none;
}

can_agent_execute_task_lem_example :
    (can_agent_execute_task plain (agent_like (agent "alice")) ≡ true
      → Eligible plain (agent_like (agent "alice")))
    × (Eligible plain (agent_like (agent "alice"))
        → can_agent_execute_task plain (agent_like (agent "alice")) ≡ true)
can_agent_execute_task_lem_example = can_agent_execute_task_lem plain (agent_like (agent "alice"))

build_dispatch_plan-Suits_example :
    AllDistinct
      (refs_of (build_dispatch_plan (schedule 10 backlog) (agent "alice" ∷ agent "bob" ∷ [])))
    × All
        (Suits 10 backlog)
        (build_dispatch_plan (schedule 10 backlog) (agent "alice" ∷ agent "bob" ∷ []))
build_dispatch_plan-Suits_example =
    build_dispatch_plan-Suits 10 backlog (agent "alice" ∷ agent "bob" ∷ [])

abbrev three : List Agent
three = agent "alice" ∷ agent "bob" ∷ agent "carol" ∷ []

abbrev eligible_three : List Agent
eligible_three = eligible_agents free "refactor" three []

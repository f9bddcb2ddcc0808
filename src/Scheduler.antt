-- ===== src/Scheduler.antt =====
-- lib/taskScheduler.ts: the next task that an agent can execute. Reading the state files and the
-- clock are arguments: the backlog, the agents (none if agents.json cannot be read), and `now`.
pub mod Sorting
pub mod Choice
pub mod Ready
use orc_state.Base.{
  Bool, true, false, not, ◌&&◌, ◌||◌, List, [], ◌∷◌, ◌++◌, map, Option, none, some, String, ℕ, ◌+◌,
  ◌==◌, includes, every, find, filter_by, if◌then◌else◌, truthy, or_default, is_some, ltb, leb,
  nat_eq, opt_eq,
}
use orc_state.Base.Time.{Stamp, after, opt_stamp_truthy}
use orc_state.Model.Task.{
  Task, Feature, Priority, PlanningState, low, normal, high, critical, is_todo, is_finished,
}
use orc_state.Model.Agent.{Agent, AgentStatus, AgentRole}
use orc_state.Routing.{TaskLike, AgentLike, can_agent_execute_task}

-- `TASK_PRIORITY_RANK`, with the rank of `normal` for an absent priority.
abbrev pub priority_rank : Option Priority → ℕ
priority_rank (some low) = 0
priority_rank (some normal) = 1
priority_rank (some high) = 2
priority_rank (some critical) = 3
priority_rank none = 1

pub record Candidate : Type 0 where
  pub ref : String
  pub rank : ℕ
  pub index : ℕ

-- The two nested loops go over the tasks in this order.
abbrev pub tasks_of : List Feature → List Task
tasks_of [] = []
tasks_of (f ∷ fs) = f.tasks ++ tasks_of fs

abbrev pub done_set : List Task → List String
done_set tasks = map (λ t. t.ref) (filter_by (λ t. is_finished t.status) tasks)

abbrev pub task_like : Task → TaskLike
task_like t = record {
  task_type = t.task_type;
  owner = t.owner;
  required_provider = t.required_provider;
  required_capabilities = t.required_capabilities;
}

abbrev pub agent_like : Agent → AgentLike
agent_like a = record {
  agent_id = some a.agent_id;
  role = a.role;
  provider = some a.provider;
  capabilities = a.capabilities;
}

-- `new Date(task.requeue_eligible_after) > now`, for a timestamp that is set.
abbrev backing_off : ℕ → Option Stamp → Bool
backing_off now none = false
backing_off now (some t) = opt_stamp_truthy (some t) && after t now

abbrev not_ready : Option PlanningState → Bool
not_ready none = false
not_ready (some PlanningState.ready_for_dispatch) = false
not_ready (some PlanningState.archived) = true

-- The two `continue`s on the owner: reserved for another agent, or no agent is named.
abbrev pub reserved : Option String → Option String → Bool
reserved owner agent_id = truthy owner && not (truthy agent_id && opt_eq owner agent_id)

-- The guards of the loop body, in the source's order.
unfoldable pub is_eligible : ℕ → List String → List String → Option String → Agent → Task → Bool
is_eligible now exclude done_refs agent_id agent task =
    is_todo task.status
    && (not (backing_off now task.requeue_eligible_after)
        && (not (includes exclude task.ref)
            && (not (not_ready task.planning_state)
                && (not (reserved task.owner agent_id)
                    && (can_agent_execute_task (task_like task) (agent_like agent)
                        && every (λ d. includes done_refs d) (or_default task.depends_on []))))))

-- The loop, with the running `index` of the eligible tasks.
abbrev pub collect : (Task → Bool) → ℕ → List Task → List Candidate
collect eligible index [] = []
collect eligible index (t ∷ ts) =
    let next = eligible t in
    let rest = collect eligible (if next then index + 1 else index) ts in
    if next
    then record { ref = t.ref; rank = priority_rank t.priority; index = index } ∷ rest
    else rest

-- The comparator puts `a` before `b`: `b.rank - a.rank || a.index - b.index` is not positive.
abbrev pub precedes : Candidate → Candidate → Bool
precedes a b = ltb b.rank a.rank || nat_eq a.rank b.rank && leb a.index b.index

-- `Array.prototype.sort` with that comparator.
abbrev pub insert_candidate : Candidate → List Candidate → List Candidate
insert_candidate c [] = c ∷ []
insert_candidate c (d ∷ ds) = if precedes c d then c ∷ d ∷ ds else d ∷ insert_candidate c ds

abbrev pub sort : List Candidate → List Candidate
sort [] = []
sort (c ∷ cs) = insert_candidate c (sort cs)

abbrev pub first_ref : List Candidate → Option String
first_ref [] = none
first_ref (c ∷ cs) = some c.ref

-- The argument `agentOrId`.
pub data AgentArg : Type 0 where
  no_agent : AgentArg
  by_id : String → AgentArg
  by_agent : Agent → AgentArg

abbrev pub id_of : AgentArg → Option String
id_of no_agent = none
id_of (by_id id) = some id
id_of (by_agent a) = some a.agent_id

-- The agent that stands in where only an id is known.
abbrev stand_in : String → Agent
stand_in id = record {
  agent_id = id;
  provider = "codex";
  status = AgentStatus.idle;
  role = some AgentRole.worker;
  capabilities = some [];
  session_handle = none;
  last_heartbeat_at = none;
}

abbrev pub agent_of : AgentArg → Agent
agent_of no_agent = stand_in ""
agent_of (by_id id) = stand_in id
agent_of (by_agent a) = a

unfoldable pub next_eligible_task_from_backlog :
    ℕ → List String → AgentArg → List Feature → Option String
unfolding is_eligible
next_eligible_task_from_backlog now exclude arg features =
    let tasks = tasks_of features in
    first_ref
      (sort (collect (is_eligible now exclude (done_set tasks) (id_of arg) (agent_of arg)) 0 tasks))

abbrev resolve : List Agent → AgentArg → AgentArg
resolve agents (by_id id) = elim (find (λ a. a.agent_id == id) agents) [
  | none ↦ by_id id
  | some a ↦ by_agent a
]
resolve agents arg = arg

unfoldable pub next_eligible_task :
    ℕ → List String → List Agent → AgentArg → List Feature → Option String
unfolding next_eligible_task_from_backlog
next_eligible_task now exclude agents arg features =
    next_eligible_task_from_backlog now exclude (resolve agents arg) features

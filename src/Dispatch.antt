-- ===== src/Dispatch.antt =====
-- lib/dispatchPlanner.ts: which agents take part in a tick, which task each gets, and the round robin
-- of automatic delegation. `lastAssignedAgentId`, a variable of the source module, is passed in and
-- out.
pub mod Plan
pub mod RoundRobin
use orc_state.Base.{
  Bool, true, false, not, ◌&&◌, ◌||◌, List, [], ◌∷◌, ◌++◌, map, Option, none, some, String, ℕ, zero,
  suc, ◌+◌, ◌%◌, ◌==◌, includes, filter_by, if◌then◌else◌, truthy, opt_eq, length,
}
use orc_state.Model.Agent.{Agent, AgentStatus, is_reachable, is_coordinating}
use orc_state.Model.Claim.{Claim, is_active}
use orc_state.Routing.{
  TaskLike, Reason, evaluate_task_eligibility, can_agent_execute_task, no_reasons,
}
use orc_state.Scheduler.{agent_like}

abbrev dispatchable : List String → Agent → Bool
dispatchable busy a =
    is_reachable a.status && (not (is_coordinating a.role) && not (includes busy a.agent_id))

unfoldable pub select_dispatchable_agents : List Agent → List String → List Agent
select_dispatchable_agents agents busy = filter_by (dispatchable busy) agents

pub record Assignment : Type 0 where
  pub agent : Agent
  pub task_ref : String

-- The loop of `buildDispatchPlan`: `reserved` holds the tasks given out so far.
unfoldable pub plan_from :
    (Agent → List String → Option String) → List String → List Agent → List Assignment
plan_from pick reserved [] = []
plan_from pick reserved (a ∷ rest) = elim (pick a reserved) [
  | none ↦ plan_from pick reserved rest
  | some ref ↦ elim (ref == "") [
    | true ↦ plan_from pick reserved rest
    | false ↦ record { agent = a; task_ref = ref } ∷ plan_from pick (ref ∷ reserved) rest
  ]
]

unfoldable pub build_dispatch_plan :
    (Agent → List String → Option String) → List Agent → List Assignment
unfolding plan_from
build_dispatch_plan pick agents = plan_from pick [] agents

abbrev busy_agents : List Claim → List String
busy_agents claims = map (λ c. c.agent_id) (filter_by (λ c. is_active c.state) claims)

abbrev with_type : TaskLike → String → TaskLike
with_type task type = record task { task_type = some type }

abbrev auto_eligible : TaskLike → String → Agent → Bool
auto_eligible task type a =
    (not (truthy task.owner) || opt_eq task.owner (some a.agent_id))
    && can_agent_execute_task (with_type task type) (agent_like a)

unfoldable pub eligible_agents : TaskLike → String → List Agent → List Claim → List Agent
unfolding select_dispatchable_agents
eligible_agents task type agents claims =
    filter_by (auto_eligible task type) (select_dispatchable_agents agents (busy_agents claims))

-- `findIndex` of the agent assigned last, `none` for -1.
abbrev pub index_of : Option String → List Agent → Option ℕ
index_of last [] = none
index_of last (a ∷ others) =
    let rest = index_of last others in
    if opt_eq (some a.agent_id) last
    then some 0
    else elim rest [ none ↦ none | some i ↦ some (suc i) ]

abbrev pub id_at : List Agent → ℕ → Option String
id_at [] i = none
id_at (a ∷ others) zero = some a.agent_id
id_at (a ∷ others) (suc i) = id_at others i

-- The choice among the eligible agents.
unfoldable pub next_target : Option String → List Agent → Option String
next_target last eligible = elim (index_of last eligible) [
  | none ↦ id_at eligible 0
  | some i ↦ id_at eligible ((i + 1) % length eligible)
]

-- Returns the target and the new `lastAssignedAgentId`.
unfoldable pub select_auto_target :
    TaskLike → String → List Agent → List Claim → Option String → Option String × Option String
unfolding eligible_agents next_target
select_auto_target task type agents claims last = elim (eligible_agents task type agents claims) [
  | [] ↦ (none, last)
  | a ∷ others ↦ (next_target last (a ∷ others), next_target last (a ∷ others))
]

pub data FailureReason : Type 0 where
  agent_offline agent_busy : FailureReason
  routing : Reason → FailureReason

abbrev offline_reason : AgentStatus → List FailureReason
offline_reason AgentStatus.offline = agent_offline ∷ []
offline_reason _ = []

abbrev busy_reason : Bool → List FailureReason
busy_reason true = agent_busy ∷ []
busy_reason false = []

unfoldable pub failure_reasons : TaskLike → String → List String → Agent → List FailureReason
failure_reasons task type busy a =
    offline_reason a.status
    ++ (busy_reason (includes busy a.agent_id)
        ++ map routing (evaluate_task_eligibility (with_type task type) (agent_like a)))

abbrev not_dead : AgentStatus → Bool
not_dead AgentStatus.dead = false
not_dead _ = true

abbrev has_reasons : String × List FailureReason → Bool
has_reasons (_, []) = false
has_reasons (_, _ ∷ _) = true

unfoldable pub describe_auto_target_failure :
    TaskLike → String → List Agent → List Claim → List (String × List FailureReason)
unfolding failure_reasons
describe_auto_target_failure task type agents claims = filter_by has_reasons (
    map (λ a. (a.agent_id, failure_reasons task type (busy_agents claims) a))
      (filter_by (λ a. not_dead a.status && not (is_coordinating a.role)) agents))

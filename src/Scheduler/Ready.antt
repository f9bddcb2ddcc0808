-- ===== src/Scheduler/Ready.antt =====
-- What eligibility guarantees of the task that the scheduler names.
use orc_state.Base.{
  Bool, true, false, ◌&&◌, List, [], ◌∷◌, some, String, ℕ, ◌≡◌, ◌≢◌, refl, arith, ◌==◌, All, any_of,
  every, includes, truthy, or_default, opt_eq,
}
use orc_state.Base.Time.{after, iso}
use orc_state.Model.Task.{Task, TaskStatus, Feature, PlanningState, is_finished}
use orc_state.Routing.{can_agent_execute_task}
use orc_state.Scheduler.{
  AgentArg, tasks_of, done_set, id_of, agent_of, is_eligible, task_like, agent_like,
  next_eligible_task_from_backlog,
}
use orc_state.Scheduler.Choice.{next_eligible_task_IsBest}

-- Some task of that reference is done or released.
abbrev finished_ref : List Task → String → Bool
finished_ref tasks d = any_of (λ u. u.ref == d && is_finished u.status) tasks

includes-done_set :
    (tasks : List Task) (d : String) → includes (done_set tasks) d ≡ finished_ref tasks d
includes-done_set [] d = refl
includes-done_set (t ∷ ts) d = ground (arith, includes-done_set ts d)

-- A task that may be dispatched to the agent of the argument.
pub record IsDispatchable (now : ℕ) (exclude : List String) (arg : AgentArg)
    (features : List Feature) (t : Task) : Type 0 where
  pub is_todo : t.status ≡ TaskStatus.todo
  pub not_excluded : includes exclude t.ref ≡ false
  pub planned : t.planning_state ≢ some PlanningState.archived
  pub backed_off : (n : ℕ) → t.requeue_eligible_after ≡ some (iso n) → after (iso n) now ≡ false
  pub owned : truthy t.owner ≡ true → opt_eq t.owner (id_of arg) ≡ true
  pub routed : can_agent_execute_task (task_like t) (agent_like (agent_of arg)) ≡ true
  pub dependencies :
      All (λ d. finished_ref (tasks_of features) d ≡ true) (or_default t.depends_on [])

every-finished :
    (tasks : List Task) (deps : List String)
    → every (λ d. includes (done_set tasks) d) deps ≡ true
    → All (λ d. finished_ref tasks d ≡ true) deps
every-finished tasks [] h = tt
every-finished tasks (d ∷ ds) h =
    (ground (arith, includes-done_set tasks d), every-finished tasks ds (ground arith))

eligible-IsDispatchable :
    (now : ℕ) (exclude : List String) (arg : AgentArg) (features : List Feature) (t : Task)
    → is_eligible now exclude (done_set (tasks_of features)) (id_of arg) (agent_of arg) t ≡ true
    → IsDispatchable now exclude arg features t
unfolding is_eligible
eligible-IsDispatchable now exclude arg features t h = record {
  is_todo = ground arith;
  not_excluded = ground arith;
  planned = λ e. ground arith;
  backed_off = λ n e. ground arith;
  owned = λ o. ground arith;
  routed = ground arith;
  dependencies = every-finished (tasks_of features) (or_default t.depends_on []) (ground arith);
}

-- The task that the scheduler names is `todo`, not excluded, not archived, past its backoff, not
-- reserved for anyone but the agent, routable to the agent, and each of its dependencies is the
-- reference of a task that is done or released.
pub next_eligible_task-IsDispatchable :
    (now : ℕ) (exclude : List String) (arg : AgentArg) (features : List Feature) {ref : String}
    → next_eligible_task_from_backlog now exclude arg features ≡ some ref
    → (t : Task) × (t.ref ≡ ref) × IsDispatchable now exclude arg features t
next_eligible_task-IsDispatchable now exclude arg features h =
    let (t, same, best) = next_eligible_task_IsBest now exclude arg features h in
    (t, same, eligible-IsDispatchable now exclude arg features t best.is_allowed)

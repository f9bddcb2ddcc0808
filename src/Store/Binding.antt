-- ===== src/Store/Binding.antt =====
-- lib/projectTaskStore.ts: claiming a task and the bindings of runs to spec revisions.
use orc_state.Base.{
  Bool, true, false, not, ◌&&◌, List, [], ◌∷◌, ◌++◌, map, Option, none, some, String, ℕ, ◌==◌,
  any_of, find, filter_by, is_some, nat_eq, truthy, opt_eq, or_default, Result, ok, err, ◌>>=◌,
  ◌>>◌, throw_if,
}
use mathlib.Core.Option
use orc_state.Base.Time.{Stamp}
use orc_state.Model.Task.{TaskStatus, PlanningState, is_todo, is_finished}
use orc_state.Contract.{claim}
use orc_state.Store.Schema.{
  TaskRow, RevisionRow, RunState, RunRow, Db, Fault, task_not_found, not_claimable, reserved_for,
  waiting_for, duplicate_run, no_such_revision, second_active_run, update_where, task_by_ref,
  is_open,
}
use orc_state.Store.Transition.{
  ProjectTask, get_task, sort_refs, set_runs, TransitionInput, apply_transition,
}

unfoldable pub get_revision : Db → String → ℕ → Option RevisionRow
get_revision db ref revision =
    find (λ r. r.task_ref == ref && nat_eq r.revision revision) db.revisions

abbrev pub open_run_of : String → RunRow → Bool
open_run_of ref r = r.task_ref == ref && is_open r.state

-- `INSERT INTO task_runs`: the primary key, the foreign key to the revision, and the unique index
-- over the open runs of a task.
unfoldable pub insert_run : RunRow → Db → Result Fault Db
unfolding get_revision
insert_run run db = do
  throw_if (any_of (λ r. r.run_id == run.run_id) db.runs) duplicate_run
  throw_if (any_of (open_run_of run.task_ref) db.runs && is_open run.state) second_active_run
  throw_if (not (is_some (get_revision db run.task_ref run.spec_revision))) no_such_revision
  ok (record db { runs = db.runs ++ run ∷ [] })

-- The revision given, or else the latest one of the task.
unfoldable pub pinned_revision : Db → String → Option ℕ → Option ℕ
unfolding get_task
pinned_revision db ref (some revision) = some revision
pinned_revision db ref none =
    Option.map (λ (t : ProjectTask). t.revision.revision) (get_task db ref)

abbrev pub binding : Stamp → String → String → Option String → ℕ → RunRow
binding now run_id ref agent_id revision = record {
  run_id = run_id;
  task_ref = ref;
  spec_revision = revision;
  agent_id = agent_id;
  state = RunState.claimed;
  created_at = now;
  updated_at = now;
}

unfoldable pub bind_run :
    Stamp → String → String → Option String → Option ℕ → Db → Result Fault (ℕ × Db)
unfolding pinned_revision insert_run
bind_run now run_id ref agent_id revision db = elim (pinned_revision db ref revision) [
  | none ↦ err (task_not_found ref)
  | some pinned ↦ do
    db' ←
        insert_run (binding now run_id ref agent_id pinned)
          (record db { runs = set_runs now ref is_open RunState.failed db.runs })
    ok (pinned, db')
]

unfoldable pub active_run_id : Db → String → Option String
active_run_id db ref = Option.map (λ (r : RunRow). r.run_id) (find (open_run_of ref) db.runs)

-- Reopening a binding fails on the unique index if another run of the task is open.
unfoldable pub reactivate_run : Stamp → String → Db → Result Fault Db
reactivate_run now run_id db = do
  throw_if
      (any_of
        (λ r.
          r.run_id == run_id
          && any_of (λ s. not (s.run_id == run_id) && open_run_of r.task_ref s) db.runs)
        db.runs)
      second_active_run
  ok (record db {
    runs =
        update_where (λ r. r.run_id == run_id)
          (λ r. record r { state = RunState.claimed; updated_at = now }) db.runs;
  })

unfoldable pub abandon_run : Stamp → String → Db → Db
abandon_run now run_id db = record db {
  runs =
      update_where (λ r. r.run_id == run_id && is_open r.state)
        (λ r. record r { state = RunState.failed; updated_at = now }) db.runs;
}

unfoldable pub get_run_spec : Db → String → Option RevisionRow
unfolding get_revision
get_run_spec db run_id = elim (find (λ r. r.run_id == run_id) db.runs) [
  | none ↦ none
  | some run ↦ get_revision db run.task_ref run.spec_revision
]

-- The outer join's test: no such task, or a status that is not `done` or `released`.
abbrev pub unfinished : Option TaskRow → Bool
unfinished none = true
unfinished (some t) = not (is_finished t.status)

unfoldable pub waiting_dependencies : Db → String → List String
waiting_dependencies db ref = sort_refs (
    map (λ d. d.depends_on_ref)
      (filter_by (λ d. d.task_ref == ref && unfinished (task_by_ref db.tasks d.depends_on_ref))
        db.dependencies))

abbrev pub claim_input : String → String → TransitionInput
claim_input run_id agent_id = record {
  cause = claim;
  to = TaskStatus.claimed;
  reason = none;
  run_id = some run_id;
  actor_id = some agent_id;
  idempotency_key = none;
}

abbrev pub is_empty : List String → Bool
is_empty [] = true
is_empty (_ ∷ _) = false

-- The checks of `claimTask`, in the source's order.
unfoldable pub check_claimable : Db → ProjectTask → String → String → Result Fault (Unit {0})
unfolding waiting_dependencies
check_claimable db task ref agent_id = do
  throw_if (not (is_todo task.row.status)) (not_claimable task.row.status)
  throw_if (truthy task.row.owner && not (opt_eq task.row.owner (some agent_id)))
      (reserved_for (or_default task.row.owner ""))
  throw_if (not (is_empty (waiting_dependencies db ref)))
      (waiting_for (waiting_dependencies db ref))

unfoldable pub claim_task : Stamp → String → String → String → Db → Result Fault (ℕ × Db)
unfolding check_claimable apply_transition bind_run
claim_task now ref run_id agent_id db = elim (get_task db ref) [
  | none ↦ err (task_not_found ref)
  | some task ↦ do
    check_claimable db task ref agent_id
    db' ← apply_transition now ref (claim_input run_id agent_id) db
    bind_run now run_id ref (some agent_id) none db'
]

-- `undefined` leaves a column, so each field is an optional new value.
pub record DispatchChange : Type 0 where
  pub owner : Option (Option String)
  pub planning_state : Option (Option PlanningState)
  pub delegated_by : Option (Option String)
  pub task_type : Option (Option String)
  pub requeue_eligible_after : Option (Option Stamp)
  pub attempt_count : Option ℕ

-- The column's CHECK on the type of a task is left to the caller.
unfoldable pub set_dispatch_state : String → DispatchChange → Db → Db
set_dispatch_state ref change db = record db {
  tasks =
      update_where (λ t. t.ref == ref)
        (λ t. record t {
          owner = or_default change.owner t.owner;
          planning_state = or_default change.planning_state t.planning_state;
          delegated_by = or_default change.delegated_by t.delegated_by;
          task_type = or_default change.task_type t.task_type;
          requeue_eligible_after =
              or_default change.requeue_eligible_after t.requeue_eligible_after;
          attempt_count = or_default change.attempt_count t.attempt_count;
        })
        db.tasks;
}

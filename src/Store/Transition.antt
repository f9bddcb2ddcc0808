-- ===== src/Store/Transition.antt =====
-- lib/projectTaskStore.ts: reading a task, and recording a lifecycle transition with its triggers.
use Prim.Native.Char.{code}
use Prim.Native.String.{compare}
use text.Mathlib.Text.{is_le}
use orc_state.Base.{
  Bool, true, false, not, ◌&&◌, List, [], ◌∷◌, ◌++◌, map, Option, none, some, String, ℕ, ◌+◌, ◌==◌,
  any_of, filter_by, if◌then◌else◌, is_some, opt_eq, ltb, nat_eq, truthy, Result, ok, err, ◌>>=◌,
  ◌>>◌, throw_if,
}
use orc_state.Base.Time.{Stamp}
use orc_state.Model.Task.{TaskStatus, is_running}
use orc_state.Contract.{
  Cause, run_start, merge_succeeded, failure_requeue, failure_block, operator_reset, cancel,
  status_eq,
}
use orc_state.Store.Schema.{
  TaskRow, RevisionRow, TransitionRow, RunState, RunRow, Db, Fault, task_not_found, stale_status,
  invalid_transition, blocked_without_reason, duplicate_key, status_guard, update_where,
  task_by_ref, is_open, has_transition, cause_allows,
}

pub record ProjectTask : Type 0 where
  pub row : TaskRow
  pub revision : RevisionRow
  pub depends_on : List String

-- The row with `revision = (SELECT MAX(revision) … WHERE task_ref = ref)`.
abbrev pub latest_revision : List RevisionRow → String → Option RevisionRow
latest_revision [] ref = none
latest_revision (r ∷ rs) ref =
    let rest = latest_revision rs ref in
    if r.task_ref == ref
    then elim rest [ none ↦ some r | some s ↦ if ltb r.revision s.revision then some s else some r ]
    else rest

abbrev pub insert_ref : String → List String → List String
insert_ref a [] = a ∷ []
insert_ref a (b ∷ bs) = if is_le (compare a b) then a ∷ b ∷ bs else b ∷ insert_ref a bs

-- `ORDER BY depends_on_ref`.
abbrev pub sort_refs : List String → List String
sort_refs [] = []
sort_refs (a ∷ refs) = insert_ref a (sort_refs refs)

unfoldable pub dependencies : Db → String → List String
dependencies db ref =
    sort_refs (map (λ d. d.depends_on_ref) (filter_by (λ d. d.task_ref == ref) db.dependencies))

-- The join of a task with its latest revision.
abbrev pub join_task : Db → String → Option TaskRow → Option RevisionRow → Option ProjectTask
join_task db ref (some t) (some r) =
    some (record { row = t; revision = r; depends_on = dependencies db ref })
join_task db ref _ _ = none

unfoldable pub get_task : Db → String → Option ProjectTask
get_task db ref = join_task db ref (task_by_ref db.tasks ref) (latest_revision db.revisions ref)

pub record TransitionInput : Type 0 where
  pub cause : Cause
  pub to : TaskStatus
  pub reason : Option String
  pub run_id : Option String
  pub actor_id : Option String
  pub idempotency_key : Option String

-- `length(trim(text)) = 0`: nothing but spaces.
abbrev pub all_spaces : String → Bool
all_spaces String.[] = true
all_spaces (String.◌∷◌ c s) = nat_eq (code c) 32 && all_spaces s

abbrev pub blank : Option String → Bool
blank none = true
blank (some s) = all_spaces s

abbrev pub max_id : List TransitionRow → String → ℕ
max_id [] ref = 0
max_id (r ∷ rs) ref =
    let rest = max_id rs ref in
    if r.task_ref == ref then if ltb r.transition_id rest then rest else r.transition_id else rest

-- `tasks_status_guard`: the latest transition of the task makes this very change.
abbrev pub backed_by : List TransitionRow → String → TaskStatus → TaskStatus → Bool
backed_by log ref from to =
    any_of
      (λ r.
        r.task_ref == ref
        && (status_eq r.from_status from
            && (status_eq r.to_status to && nat_eq r.transition_id (max_id log ref))))
      log

-- `transitions_apply`: the UPDATE that follows the insertion, for one row.
abbrev pub moved : TransitionRow → TaskRow → TaskRow
moved new t = record t {
  status = new.to_status;
  blocked_reason = if status_eq new.to_status TaskStatus.blocked then new.reason else none;
  updated_at = new.created_at;
}

-- `RUN_STATE_FOR_CAUSE`.
abbrev run_state_for_cause : Cause → Option RunState
run_state_for_cause merge_succeeded = some RunState.finished
run_state_for_cause failure_requeue = some RunState.failed
run_state_for_cause failure_block = some RunState.failed
run_state_for_cause operator_reset = some RunState.cancelled
run_state_for_cause cancel = some RunState.cancelled
run_state_for_cause _ = none

-- `INSERT INTO task_transitions`, with `transitions_validate` before it, the table's constraints,
-- and `transitions_apply` and `tasks_status_guard` after it. `was` is the task's row.
unfoldable pub insert_transition : TransitionRow → TaskRow → Db → Result Fault Db
insert_transition new was db = do
  throw_if (not (status_eq was.status new.from_status)) stale_status
  throw_if
      (not (
        cause_allows new.cause new.from_status new.to_status
          (has_transition db.transitions new.task_ref)))
      invalid_transition
  throw_if (status_eq new.to_status TaskStatus.blocked && blank new.reason) blocked_without_reason
  throw_if
      (is_some new.idempotency_key
        && any_of (λ r. r.task_ref == new.task_ref && opt_eq r.idempotency_key new.idempotency_key)
            db.transitions)
      duplicate_key
  let log = db.transitions ++ new ∷ []
  throw_if
      (not (status_eq was.status new.to_status)
        && not (backed_by log new.task_ref was.status new.to_status))
      status_guard
  ok (record db {
    transitions = log;
    last_transition_id = new.transition_id;
    tasks = update_where (λ t. t.ref == new.task_ref) (moved new) db.tasks;
  })

-- `UPDATE task_runs SET state = …, updated_at = now WHERE task_ref = ref AND test(state)`.
abbrev pub set_runs : Stamp → String → (RunState → Bool) → RunState → List RunRow → List RunRow
set_runs now ref test state =
    update_where (λ r. r.task_ref == ref && test r.state)
      (λ r. record r { state = state; updated_at = now })

abbrev is_run_start : Cause → Bool
is_run_start run_start = true
is_run_start _ = false

abbrev pub is_claimed_run : RunState → Bool
is_claimed_run RunState.claimed = true
is_claimed_run _ = false

abbrev pub start_runs : Stamp → String → Cause → List RunRow → List RunRow
start_runs now ref cause runs =
    if is_run_start cause then set_runs now ref is_claimed_run RunState.in_progress runs else runs

abbrev pub close_runs : Stamp → String → Cause → TaskStatus → List RunRow → List RunRow
close_runs now ref cause was runs = elim (run_state_for_cause cause) [
  | none ↦ runs
  | some state ↦ if is_running was then set_runs now ref is_open state runs else runs
]

abbrev pub repeats_key : List TransitionRow → String → Option String → Bool
repeats_key log ref key =
    truthy key && any_of (λ r. r.task_ref == ref && opt_eq r.idempotency_key key) log

abbrev pub new_row : Stamp → String → TransitionInput → TaskStatus → ℕ → TransitionRow
new_row now ref input from id = record {
  transition_id = id;
  task_ref = ref;
  from_status = from;
  to_status = input.to;
  cause = input.cause;
  reason = input.reason;
  run_id = input.run_id;
  actor_id = input.actor_id;
  idempotency_key = input.idempotency_key;
  created_at = now;
}

-- What `applyTransition` does once the task is read.
unfoldable pub record_transition : Stamp → String → TransitionInput → Db → TaskRow → Result Fault Db
record_transition now ref input db was =
    if repeats_key db.transitions ref input.idempotency_key then ok db else do
      db' ← insert_transition (new_row now ref input was.status (db.last_transition_id + 1)) was db
      ok (record db' {
        runs = close_runs now ref input.cause was.status (start_runs now ref input.cause db'.runs);
      })

unfoldable pub apply_transition : Stamp → String → TransitionInput → Db → Result Fault Db
unfolding get_task record_transition insert_transition dependencies
apply_transition now ref input db = elim (get_task db ref) [
  | none ↦ err (task_not_found ref)
  | some task ↦ record_transition now ref input db task.row
]

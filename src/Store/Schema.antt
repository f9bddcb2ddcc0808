-- ===== src/Store/Schema.antt =====
-- lib/projectTaskStore.ts: the tables of runtime.db that carry the lifecycle, with the triggers and
-- the constraints that schema version 4 puts on them. A table is the list of its rows in insertion
-- order; AUTOINCREMENT is a counter; what a trigger or a constraint aborts with is a `Fault`.
use orc_state.Base.{
  Bool, true, false, not, List, map, Option, String, ℕ, ◌==◌, any_of, find, if◌then◌else◌,
}
use orc_state.Base.Time.{Stamp}
use orc_state.Model.Task.{TaskStatus, Priority, PlanningState, is_todo, is_running}
use orc_state.Contract.{
  Cause, claim, run_start, merge_succeeded, post_merge_release, failure_requeue, failure_block,
  manual_block, unblock, operator_reset, cancel, migration_import,
}

pub record TaskRow : Type 0 where
  pub ref : String
  pub title : String
  pub status : TaskStatus
  pub priority : Priority
  pub required_provider : Option String
  pub attempt_count : ℕ
  pub blocked_reason : Option String
  pub created_at : Stamp
  pub updated_at : Stamp
  pub owner : Option String
  pub planning_state : Option PlanningState
  pub delegated_by : Option String
  pub task_type : Option String
  pub requeue_eligible_after : Option Stamp

pub record RevisionRow : Type 0 where
  pub task_ref : String
  pub revision : ℕ
  pub content_hash : String
  pub body_markdown : String
  pub title : String
  pub metadata_json : String
  pub created_at : Stamp

pub record DependencyRow : Type 0 where
  pub task_ref : String
  pub depends_on_ref : String

pub record TransitionRow : Type 0 where
  pub transition_id : ℕ
  pub task_ref : String
  pub from_status : TaskStatus
  pub to_status : TaskStatus
  pub cause : Cause
  pub reason : Option String
  pub run_id : Option String
  pub actor_id : Option String
  pub idempotency_key : Option String
  pub created_at : Stamp

pub data RunState : Type 0 where
  claimed in_progress work_complete finished failed cancelled : RunState

pub record RunRow : Type 0 where
  pub run_id : String
  pub task_ref : String
  pub spec_revision : ℕ
  pub agent_id : Option String
  pub state : RunState
  pub created_at : Stamp
  pub updated_at : Stamp

pub record Db : Type 0 where
  pub tasks : List TaskRow
  pub revisions : List RevisionRow
  pub dependencies : List DependencyRow
  pub transitions : List TransitionRow
  pub last_transition_id : ℕ
  pub runs : List RunRow

pub data Fault : Type 0 where
  task_not_found : String → Fault
  not_claimable : TaskStatus → Fault
  reserved_for : String → Fault
  waiting_for : List String → Fault
  stale_status invalid_transition blocked_without_reason duplicate_key status_guard : Fault
  duplicate_run no_such_revision second_active_run : Fault

-- `UPDATE table SET … WHERE test`.
abbrev pub update_where {ℓ} : {A : Type ℓ} → (A → Bool) → (A → A) → List A → List A
update_where p f xs = map (λ x. if p x then f x else x) xs

abbrev pub task_by_ref : List TaskRow → String → Option TaskRow
task_by_ref tasks ref = find (λ t. t.ref == ref) tasks

-- `state IN ('claimed','in_progress','work_complete')`.
abbrev pub is_open : RunState → Bool
is_open RunState.claimed = true
is_open RunState.in_progress = true
is_open RunState.work_complete = true
is_open _ = false

abbrev pub has_transition : List TransitionRow → String → Bool
has_transition log ref = any_of (λ r. r.task_ref == ref) log

-- The table of `transitions_validate`: cause, status before, status after, and whether the task has
-- a transition already.
abbrev pub cause_allows : Cause → TaskStatus → TaskStatus → Bool → Bool
cause_allows claim TaskStatus.todo TaskStatus.claimed _ = true
cause_allows run_start TaskStatus.claimed TaskStatus.in_progress _ = true
cause_allows merge_succeeded TaskStatus.in_progress TaskStatus.done _ = true
cause_allows post_merge_release TaskStatus.done TaskStatus.released _ = true
cause_allows failure_requeue from TaskStatus.todo _ = is_running from
cause_allows failure_block from TaskStatus.blocked _ = is_running from
cause_allows manual_block TaskStatus.todo TaskStatus.blocked _ = true
cause_allows unblock TaskStatus.blocked TaskStatus.todo _ = true
cause_allows operator_reset from TaskStatus.todo _ = not (is_todo from)
cause_allows cancel TaskStatus.todo TaskStatus.cancelled _ = true
cause_allows cancel TaskStatus.claimed TaskStatus.cancelled _ = true
cause_allows cancel TaskStatus.in_progress TaskStatus.cancelled _ = true
cause_allows cancel TaskStatus.blocked TaskStatus.cancelled _ = true
cause_allows migration_import TaskStatus.todo TaskStatus.blocked old = not old
cause_allows migration_import TaskStatus.todo TaskStatus.done old = not old
cause_allows migration_import TaskStatus.todo TaskStatus.released old = not old
cause_allows migration_import TaskStatus.todo TaskStatus.cancelled old = not old
cause_allows _ _ _ _ = false

-- ===== src/Projects.antt =====
-- lib/projectTasks.ts in a project's state directory: the backlog is derived from the store, and a
-- backlog that was changed is committed to it. `parse` reads the metadata text of a revision
-- (JSON.parse), of which the fields that the code uses are kept.

pub mod Commit
pub mod Reading
use orc_state.Base.{
  Bool, true, false, not, ◌&&◌, List, [], ◌∷◌, ◌++◌, map, Option, none, some, String, ℕ, ◌==◌, find,
  if◌then◌else◌, is_some, opt_eq, or_default, or_else, truthy, Result, ok, err, ◌>>=◌, ◌>>◌,
  throw_if,
}
use orc_state.Base.Time.{Stamp, opt_stamp_truthy}
use orc_state.Model.Task.{TaskStatus, Priority, Task, Feature, Backlog}
use orc_state.Contract.{Cause, run_start, merge_succeeded, status_eq}
use orc_state.Store.Schema.{TaskRow, Db, Fault}
use orc_state.Store.Transition.{ProjectTask, TransitionInput, get_task, sort_refs, apply_transition}
use orc_state.Store.Binding.{DispatchChange, set_dispatch_state}

pub record Metadata : Type 0 where
  pub feature : Option String
  pub task_type : Option String
  pub description : Option String
  pub acceptance_criteria : Option (List String)
  pub review_level : Option String
  pub merge_strategy : Option String
  pub required_capabilities : Option (List String)
  pub model : Option String

-- `if (text) projected.field = text`.
abbrev pub if_truthy : Option String → Option String
if_truthy text = if truthy text then text else none

-- An empty list of the store or of the metadata is left out of a projected task.
abbrev pub nonempty : Option (List String) → Option (List String)
nonempty none = none
nonempty (some []) = none
nonempty (some (a ∷ refs)) = some (a ∷ refs)

abbrev pub if_stamp : Option Stamp → Option Stamp
if_stamp at = if opt_stamp_truthy at then at else none

-- `projectTaskToBacklogTask`, with the metadata that was read.
unfoldable pub project_task_to_backlog_task : Metadata → ProjectTask → Task
project_task_to_backlog_task metadata task = record {
  ref = task.row.ref;
  title = task.row.title;
  status = task.row.status;
  task_type = some (or_default (or_else task.row.task_type metadata.task_type) "implementation");
  priority = some task.row.priority;
  planning_state = task.row.planning_state;
  required_capabilities = nonempty metadata.required_capabilities;
  required_provider = if_truthy task.row.required_provider;
  depends_on = nonempty (some task.depends_on);
  attempt_count = some task.row.attempt_count;
  requeue_eligible_after = if_stamp task.row.requeue_eligible_after;
  blocked_reason = if_truthy task.row.blocked_reason;
  owner = if_truthy task.row.owner;
  description = metadata.description;
  acceptance_criteria = nonempty metadata.acceptance_criteria;
  review_level = metadata.review_level;
  merge_strategy = metadata.merge_strategy;
  model = metadata.model;
  delegated_by = if_truthy task.row.delegated_by;
  spec_revision = some task.revision.revision;
  created_at = some task.row.created_at;
  updated_at = some task.row.updated_at;
}

-- `normalizedDefinition`: the fields that only a revision changes, lists sorted and empty ones absent.
pub record Definition : Type 0 where
  pub title : String
  pub priority : Option Priority
  pub required_provider : Option String
  pub depends_on : Option (List String)
  pub description : Option String
  pub acceptance_criteria : Option (List String)
  pub review_level : Option String
  pub merge_strategy : Option String
  pub required_capabilities : Option (List String)
  pub model : Option String

abbrev sorted : Option (List String) → Option (List String)
sorted none = none
sorted (some refs) = nonempty (some (sort_refs refs))

unfoldable pub normalized_definition : Task → Definition
normalized_definition task = record {
  title = task.title;
  priority = task.priority;
  required_provider = task.required_provider;
  depends_on = sorted task.depends_on;
  description = task.description;
  acceptance_criteria = sorted task.acceptance_criteria;
  review_level = task.review_level;
  merge_strategy = task.merge_strategy;
  required_capabilities = sorted task.required_capabilities;
  model = task.model;
}

abbrev same_texts : List String → List String → Bool
same_texts [] [] = true
same_texts (a ∷ xs) (b ∷ ys) = a == b && same_texts xs ys
same_texts _ _ = false

abbrev same_list : Option (List String) → Option (List String) → Bool
same_list none none = true
same_list (some xs) (some ys) = same_texts xs ys
same_list _ _ = false

abbrev same_priority : Option Priority → Option Priority → Bool
same_priority none none = true
same_priority (some Priority.low) (some Priority.low) = true
same_priority (some Priority.normal) (some Priority.normal) = true
same_priority (some Priority.high) (some Priority.high) = true
same_priority (some Priority.critical) (some Priority.critical) = true
same_priority _ _ = false

unfoldable pub same_definition : Definition → Definition → Bool
same_definition a b =
    a.title == b.title
    && same_priority a.priority b.priority
    && opt_eq a.required_provider b.required_provider
    && same_list a.depends_on b.depends_on
    && opt_eq a.description b.description
    && same_list a.acceptance_criteria b.acceptance_criteria
    && opt_eq a.review_level b.review_level
    && opt_eq a.merge_strategy b.merge_strategy
    && same_list a.required_capabilities b.required_capabilities
    && opt_eq a.model b.model

-- Why the status of a task was changed.
pub record TaskStatusChange : Type 0 where
  pub cause : Cause
  pub reason : Option String
  pub run_id : Option String
  pub actor_id : Option String
  pub idempotency_key : Option String

-- `changes`, by the reference of the task.
abbrev pub Changes : Type 0
Changes = List (String × TaskStatusChange)

abbrev pub change_of : String → Changes → Option TaskStatusChange
change_of ref [] = none
change_of ref (entry ∷ changes) =
    let rest = change_of ref changes in if entry.0 == ref then some entry.1 else rest

pub data CommitFault : Type 0 where
  not_in_store definition_changed no_cause : String → CommitFault
  store_fault : Fault → CommitFault

abbrev pub in_store {ℓ} : {A : Type ℓ} → Result Fault A → Result CommitFault A
in_store (err fault) = err (store_fault fault)
in_store (ok a) = ok a

-- The name of a cause, which stands in for a missing reason.
abbrev pub is_merge : Cause → Bool
is_merge merge_succeeded = true
is_merge _ = false

abbrev pub is_claimed : TaskStatus → Bool
is_claimed TaskStatus.claimed = true
is_claimed _ = false

abbrev is_blocked : TaskStatus → Bool
is_blocked TaskStatus.blocked = true
is_blocked _ = false

abbrev pub start_input : TaskStatusChange → TransitionInput
start_input change = record {
  cause = run_start;
  to = TaskStatus.in_progress;
  reason = none;
  run_id = change.run_id;
  actor_id = change.actor_id;
  idempotency_key = none;
}

-- `backlog.features.flatMap(…)`.
abbrev pub tasks_of : List Feature → List Task
tasks_of [] = []
tasks_of (feature ∷ features) = feature.tasks ++ tasks_of features

module _ (parse : String → Metadata) (cause_text : Cause → String) (now : Stamp) where
  abbrev pub change_input : Task → TaskStatusChange → TransitionInput
  change_input task change = record {
    cause = change.cause;
    to = task.status;
    reason =
        if is_blocked task.status
        then some (or_default (or_else change.reason task.blocked_reason) (cause_text change.cause))
        else change.reason;
    run_id = change.run_id;
    actor_id = change.actor_id;
    idempotency_key = change.idempotency_key;
  }

  -- A run reported as merged before its start was acknowledged is started first.
  abbrev pub start_first : Task → TaskStatus → TaskStatusChange → Db → Result Fault Db
  start_first task was change db =
      if is_merge change.cause && is_claimed was
      then apply_transition now task.ref (start_input change) db
      else ok db

  unfoldable pub record_change : Task → TaskStatus → TaskStatusChange → Db → Result Fault Db
  unfolding apply_transition
  record_change task was change db =
      start_first task was change db >>= apply_transition now task.ref (change_input task change)

  unfoldable pub commit_status : Task → TaskStatus → Changes → Db → Result CommitFault Db
  unfolding record_change
  commit_status task was changes db =
      if status_eq task.status was then ok db else elim (change_of task.ref changes) [
        | none ↦ err (no_cause task.ref)
        | some change ↦ in_store (record_change task was change db)
      ]

  abbrev pub dispatch_change : Task → ProjectTask → DispatchChange
  dispatch_change task current = record {
    owner = some task.owner;
    planning_state = some task.planning_state;
    delegated_by = some task.delegated_by;
    task_type = some (
        if truthy task.task_type
          && not (
              opt_eq task.task_type (
                some
                  (or_default (parse current.revision.metadata_json).task_type "implementation")))
        then task.task_type
        else current.row.task_type);
    requeue_eligible_after = some task.requeue_eligible_after;
    attempt_count = some (or_default task.attempt_count 0);
  }

  -- One task of the loop, when it has been read.
  unfoldable pub commit_read : Task → Changes → Db → ProjectTask → Result CommitFault Db
  unfolding same_definition normalized_definition project_task_to_backlog_task commit_status
      set_dispatch_state
  commit_read task changes db current = do
    throw_if
        (not (
          same_definition (normalized_definition task) (
            normalized_definition
              (project_task_to_backlog_task (parse current.revision.metadata_json) current))))
        (definition_changed task.ref)
    db' ← commit_status task current.row.status changes db
    ok (set_dispatch_state task.ref (dispatch_change task current) db')

  unfoldable pub commit_task : Task → Changes → Db → Result CommitFault Db
  unfolding get_task commit_read
  commit_task task changes db = elim (get_task db task.ref) [
    | none ↦ err (not_in_store task.ref)
    | some current ↦ commit_read task changes db current
  ]

  unfoldable pub commit_tasks : List Task → Changes → Db → Result CommitFault Db
  unfolding commit_task
  commit_tasks [] changes db = ok db
  commit_tasks (task ∷ tasks) changes db =
      commit_task task changes db >>= commit_tasks tasks changes

  unfoldable pub commit_backlog : Backlog → Changes → Db → Result CommitFault Db
  unfolding commit_tasks
  commit_backlog backlog changes db = commit_tasks (tasks_of backlog.features) changes db

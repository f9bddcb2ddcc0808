-- ===== src/Manager/Restore.antt =====
-- lib/projectTasks.ts, restoreBacklogStatuses: the tasks that a reset put back into the queue are claimed
-- again by the runs that are restored with them.
use orc_state.Base.{
  Bool, false, ◌&&◌, List, [], ◌∷◌, Option, none, some, String, ◌==◌, find, if◌then◌else◌, Result,
  ok, ◌>>=◌,
}
use orc_state.Base.Time.{Stamp}
use orc_state.Model.Claim.{Claim, is_active}
use orc_state.Model.Task.{TaskStatus, Task, Backlog, is_running, is_todo}
use orc_state.Contract.{claim, run_start, status_eq}
use orc_state.Store.Schema.{Db, Fault}
use orc_state.Store.Transition.{ProjectTask, TransitionInput, get_task, apply_transition}
use orc_state.Store.Binding.{reactivate_run}
use orc_state.Projects.{tasks_of}
use orc_state.Manager.{Source, project, legacy}

abbrev pub waits : Option ProjectTask → Bool
waits none = false
waits (some found) = is_todo found.row.status

-- The claim that holds the task.
abbrev pub holding : String → List Claim → Option Claim
holding ref claims = find (λ c. c.task_ref == ref && is_active c.state) claims

abbrev pub claim_again : String → TransitionInput
claim_again run_id = record {
  cause = claim;
  to = TaskStatus.claimed;
  reason = some "session_reset_rollback";
  run_id = some run_id;
  actor_id = some "human";
  idempotency_key = none;
}

abbrev pub start_again : String → TransitionInput
start_again run_id = record {
  cause = run_start;
  to = TaskStatus.in_progress;
  reason = none;
  run_id = some run_id;
  actor_id = some "human";
  idempotency_key = none;
}

abbrev pub restart : Stamp → Task → String → Db → Result Fault Db
restart now task run_id db =
    if status_eq task.status TaskStatus.in_progress
    then apply_transition now task.ref (start_again run_id) db
    else ok db

abbrev pub restore_held : Stamp → Task → Option Claim → Db → Result Fault Db
restore_held now task none db = ok db
restore_held now task (some held) db = do
  db1 ← apply_transition now task.ref (claim_again held.run_id) db
  db2 ← reactivate_run now held.run_id db1
  restart now task held.run_id db2

abbrev pub restore_task : Stamp → List Claim → Task → Db → Result Fault Db
restore_task now claims task db =
    if is_running task.status && waits (get_task db task.ref)
    then restore_held now task (holding task.ref claims) db
    else ok db

abbrev pub restore_tasks : Stamp → List Claim → List Task → Db → Result Fault Db
restore_tasks now claims [] db = ok db
restore_tasks now claims (task ∷ tasks) db = do
  db' ← restore_task now claims task db
  restore_tasks now claims tasks db'

-- One transaction on a project's store; the file of an older directory is rewritten.
unfoldable pub restore_backlog_statuses :
    Stamp → Backlog → List Claim → Source → Result Fault Source
unfolding apply_transition reactivate_run get_task
restore_backlog_statuses now backlog claims (legacy old) = ok (legacy backlog)
restore_backlog_statuses now backlog claims (project db) = do
  db' ← restore_tasks now claims (tasks_of backlog.features) db
  ok (project db')

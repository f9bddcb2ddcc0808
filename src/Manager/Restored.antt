-- ===== src/Manager/Restored.antt =====
-- What restoreBacklogStatuses does to the tasks of the store.
use mathlib.Core.Option
use orc_state.Base.{
  Bool, true, false, ◌&&◌, List, [], ◌∷◌, Option, none, some, String, ◌≡◌, ◌≢◌, ◌⊎◌, inl, inr, refl,
  sym, ◌∙◌, ap, arith, eq_iff, is_some, ok, Bool-cases, Option-cases, Result-cases, ◌==◌,
}
use orc_state.Base.Time.{Stamp}
use orc_state.Model.Claim.{Claim}
use orc_state.Model.Task.{TaskStatus, Task, Backlog, is_running}
use orc_state.Contract.{status_eq}
use orc_state.Store.Schema.{TaskRow, Db, task_by_ref}
use orc_state.Store.Transition.{ProjectTask, get_task, apply_transition}
use orc_state.Store.Binding.{reactivate_run}
use orc_state.Store.Effects.{get_task-row}
use orc_state.Projects.{tasks_of}
use orc_state.Projects.Commit.{unkeyed_moved}
use orc_state.Manager.{project}
use orc_state.Manager.Restore.{
  waits, holding, claim_again, start_again, restart, restore_held, restore_task, restore_tasks,
  restore_backlog_statuses,
}

abbrev pub status_of : Db → String → Option TaskStatus
status_of db ref = Option.map (λ (t : TaskRow). t.status) (task_by_ref db.tasks ref)

abbrev pub runs_now : Option TaskStatus → Bool
runs_now none = false
runs_now (some status) = is_running status

-- The row is the same, or it went from the queue to the run of an active claim.
abbrev pub Resumed : List Claim → String → Db → Db → Type 0
Resumed claims ref db db' =
    (task_by_ref db'.tasks ref ≡ task_by_ref db.tasks ref)
    ⊎ ((status_of db ref ≡ some TaskStatus.todo)
        × (runs_now (status_of db' ref) ≡ true)
        × (is_some (holding ref claims) ≡ true))

Resumed-same :
    (claims : List Claim) (ref : String) (db db' : Db) → db ≡ db' → Resumed claims ref db db'
Resumed-same claims ref db db' same = inl (ap (λ (d : Db). task_by_ref d.tasks ref) (sym same))

Resumed-trans :
    (claims : List Claim) (ref : String) (db db1 db2 : Db)
    → Resumed claims ref db db1
    → Resumed claims ref db1 db2
    → Resumed claims ref db db2
Resumed-trans claims ref db db1 db2 (inl e) (inl f) = inl (f ∙ e)
Resumed-trans claims ref db db1 db2 (inl e) (inr (was, now, held)) =
    inr (ap (Option.map (λ (t : TaskRow). t.status)) (sym e) ∙ was, now, held)
Resumed-trans claims ref db db1 db2 (inr (was, now, held)) (inl f) =
    inr (was, ap (λ r. runs_now (Option.map (λ (t : TaskRow). t.status) r)) f ∙ now, held)
Resumed-trans claims ref db db1 db2 (inr (was, now, held)) (inr (again, last, holds)) =
    absurd (ground arith)

reactivate_run-tasks :
    (now : Stamp) (run_id : String) (db db' : Db)
    → reactivate_run now run_id db ≡ ok db'
    → db'.tasks ≡ db.tasks
unfolding reactivate_run
reactivate_run-tasks now run_id db db' h = ground arith

restart-Resumed :
    (now : Stamp) (task : Task) (run_id ref : String) (db db' : Db)
    → restart now task run_id db ≡ ok db'
    → (ref ≢ task.ref → task_by_ref db'.tasks ref ≡ task_by_ref db.tasks ref)
      × (runs_now (status_of db task.ref) ≡ true → runs_now (status_of db' task.ref) ≡ true)
restart-Resumed now task run_id ref db db' h =
    elim (Bool-cases (status_eq task.status TaskStatus.in_progress)) [
      | inl begins ↦
          let m = unkeyed_moved now task.ref (start_again run_id) db db' refl (ground arith) in
          (
            λ apart. m.frame ref apart,
            λ before. ap (λ r. runs_now (Option.map (λ (t : TaskRow). t.status) r)) m.row,
          )
      | inr waits ↦
          let same : db ≡ db' = ground arith in
          (
            λ apart. ap (λ (d : Db). task_by_ref d.tasks ref) (sym same),
            λ before. ap (λ (d : Db). runs_now (status_of d task.ref)) (sym same) ∙ before,
          )
    ]

restore_held-Resumed :
    (now : Stamp) (claims : List Claim) (task : Task) (held : Option Claim) (ref : String)
    (found : ProjectTask) (db db' : Db)
    → get_task db task.ref ≡ some found
    → found.row.status ≡ TaskStatus.todo
    → holding task.ref claims ≡ held
    → restore_held now task held db ≡ ok db'
    → Resumed claims ref db db'
restore_held-Resumed now claims task none ref found db db' read todo none_holds h =
    Resumed-same claims ref db db' (ground arith)
restore_held-Resumed now claims task (some held) ref found db db' read todo holds h =
    elim (Result-cases (apply_transition now task.ref (claim_again held.run_id) db)) [
      | inl (fault, e) ↦ absurd (ground arith)
      | inr (db1, e) ↦ elim (Result-cases (reactivate_run now held.run_id db1)) [
        | inl (fault, f) ↦ absurd (ground arith)
        | inr (db2, f) ↦
            let m = unkeyed_moved now task.ref (claim_again held.run_id) db db1 refl e in
            let bound : (other : String)
                → task_by_ref db2.tasks other ≡ task_by_ref db1.tasks other =
              λ other.
                ap (λ ts. task_by_ref ts other) (reactivate_run-tasks now held.run_id db1 db2 f) in
            let last = restart-Resumed now task held.run_id ref db2 db' (ground arith) in
            elim (Bool-cases (ref == task.ref)) [
              | inr apart ↦
                  let other : ref ≢ task.ref = λ e. ground (arith, eq_iff ref task.ref) in
                  inl (last.0 other ∙ bound ref ∙ m.frame ref other)
              | inl hit ↦
                  let at : ref ≡ task.ref = ground (arith, eq_iff ref task.ref) in
                  let before : status_of db task.ref ≡ some TaskStatus.todo =
                    ap (Option.map (λ (t : TaskRow). t.status)) (get_task-row db task.ref read)
                    ∙ ap some todo in
                  let after : runs_now (status_of db' task.ref) ≡ true = last.1 (
                    ap (λ r. runs_now (Option.map (λ (t : TaskRow). t.status) r))
                      (bound task.ref ∙ m.row)) in
                  inr (
                    ap (status_of db) at ∙ before,
                    ap (λ r. runs_now (status_of db' r)) at ∙ after,
                    ap (λ r. is_some (holding r claims)) at ∙ ap is_some holds,
                  )
            ]
      ]
    ]

restore_task-Resumed :
    (now : Stamp) (claims : List Claim) (task : Task) (ref : String) (db db' : Db)
    → restore_task now claims task db ≡ ok db'
    → Resumed claims ref db db'
restore_task-Resumed now claims task ref db db' h =
    elim (Bool-cases (is_running task.status && waits (get_task db task.ref))) [
      | inr skipped ↦ Resumed-same claims ref db db' (ground arith)
      | inl goes ↦ elim (Option-cases (get_task db task.ref)) [
        | inl missing ↦ absurd (ground arith)
        | inr (found, read) ↦
            restore_held-Resumed now claims task (holding task.ref claims) ref found db db' read
              (ground arith) refl (ground arith)
      ]
    ]

restore_tasks-Resumed :
    (now : Stamp) (claims : List Claim) (tasks : List Task) (ref : String) (db db' : Db)
    → restore_tasks now claims tasks db ≡ ok db'
    → Resumed claims ref db db'
restore_tasks-Resumed now claims [] ref db db' h = Resumed-same claims ref db db' (ground arith)
restore_tasks-Resumed now claims (task ∷ tasks) ref db db' h =
    elim (Result-cases (restore_task now claims task db)) [
      | inl (fault, e) ↦ absurd (ground arith)
      | inr (db1, e) ↦
          Resumed-trans claims ref db db1 db' (restore_task-Resumed now claims task ref db db1 e)
            (restore_tasks-Resumed now claims tasks ref db1 db' (ground arith))
    ]

-- When the statuses of a project's backlog are restored, the result is a store in which each task, and
-- each missing one, either has the row that it had, or went from the queue to claimed or in progress
-- and has an active claim.
pub restore_backlog_statuses-Resumed :
    (now : Stamp) (backlog : Backlog) (claims : List Claim) (ref : String) (db db' : Db)
    → restore_backlog_statuses now backlog claims (project db) ≡ ok (project db')
    → Resumed claims ref db db'
unfolding restore_backlog_statuses
restore_backlog_statuses-Resumed now backlog claims ref db db' h =
    elim (Result-cases (restore_tasks now claims (tasks_of backlog.features) db)) [
      | inl (fault, e) ↦ absurd (ground arith)
      | inr (db1, e) ↦
          restore_tasks-Resumed now claims (tasks_of backlog.features) ref db db' (ground arith)
    ]

-- ===== src/Manager/Finish.antt =====
-- A failed run of a project: the claim ends, and the task goes back to the queue or is blocked.
use mathlib.Core.Path.{subst}
use orc_state.Base.{
  Bool, true, false, not, ◌&&◌, ◌||◌, some, String, ℕ, ◌+◌, ◌==◌, ◌≡◌, refl, sym, ◌∙◌, ap, arith,
  or_default, leb, if◌then◌else◌, ok, Bool-cases, Option-cases, Result-cases, inl, inr,
}
use orc_state.Base.Time.{Stamp, is_valid}
use orc_state.Model.Claim.{Claim, is_active}
use orc_state.Model.Task.{TaskStatus, Task, is_running}
use orc_state.Contract.{Cause}
use orc_state.Store.Schema.{TaskRow, Db, task_by_ref}
use orc_state.Runs.{Event, RunsDb}
use orc_state.Runs.Commit.{Distinct}
use orc_state.Runs.Update.{IsTable, Follows}
use orc_state.Claims.{claim_of, owned_claim, save}
use orc_state.Claims.Fields.{claim_of-run_id}
use orc_state.Claims.Wellformed.{save-Saved}
use orc_state.Projects.{Metadata, commit_backlog, tasks_of}
use orc_state.Projects.Commit.{Unkeyed, Committed, commit_backlog-AllCommitted}
use orc_state.Projects.Reading.{read_project_backlog}
use orc_state.Manager.{
  World, project, finished, find_task, put_task, FinishOptions, finished_claim, end_event,
  end_changes, settle_task, is_infra_failure, max_attempts, commit_to, end_claim, finish_run,
}
use orc_state.Manager.References.{refs_of, find_in_ref, refs-put_in, All-put_in}

-- A failure counts against the task unless it blocks it at once or lies with the infrastructure.
abbrev pub counted : FinishOptions → Bool
counted options = not (options.policy == "block") && not (is_infra_failure options.failure_code)

abbrev pub attempts_after : FinishOptions → Task → ℕ
attempts_after options task =
    if counted options then or_default task.attempt_count 0 + 1 else or_default task.attempt_count 0

abbrev pub blocks : FinishOptions → Task → Bool
blocks options task =
    options.policy == "block" || (counted options && leb max_attempts (attempts_after options task))

abbrev pub status_after : FinishOptions → Task → TaskStatus
status_after options task = if blocks options task then TaskStatus.blocked else TaskStatus.todo

owned_claim-found :
    (db : RunsDb) (run_id agent_id : String) {c : Claim}
    → owned_claim db run_id agent_id ≡ ok c
    → claim_of db run_id ≡ some c
owned_claim-found db run_id agent_id {c} h = elim (Option-cases (claim_of db run_id)) [
  | inl e ↦ absurd (ground arith)
  | inr (d, e) ↦ ground arith
]

end_changes-Unkeyed :
    (options : FinishOptions) (run_id agent_id : String) (previous : TaskStatus) (task : Task)
    → Unkeyed (end_changes options run_id agent_id previous task)
end_changes-Unkeyed options run_id agent_id previous task = λ ref change given. ground arith

module _ (exceeded : ℕ → String) (options : FinishOptions) (task : Task) where
  settle-status :
      options.success ≡ false
      → (settle_task exceeded true options task).status ≡ status_after options task
  settle-status failed = ground arith

  settle-attempts :
      options.success ≡ false
      → or_default (settle_task exceeded true options task).attempt_count 0
        ≡ attempts_after options task
  settle-attempts failed = ground arith

  settle-ref : (settle_task exceeded true options task).ref ≡ task.ref
  settle-ref = ground arith

module _ (valid : Event → Bool) (parse : String → Metadata) (cause_text : Cause → String)
    (exceeded : ℕ → String) where
  -- What a failed run leaves.
  pub record Failed (options : FinishOptions) (claim : Claim) (task : Task) (world : World)
      : Type 0 where
    pub db : Db
    pub stored : world.source ≡ project db
    pub row : TaskRow
    pub found : task_by_ref db.tasks claim.task_ref ≡ some row
    pub status : row.status ≡ status_after options task
    pub attempts : row.attempt_count ≡ attempts_after options task
    pub ended : claim_of world.runs claim.run_id ≡ some (finished_claim options claim)

  commit_to-finished :
      (now : Stamp) (db : Db) (options : FinishOptions) (run_id agent_id : String) (task : Task)
      (runs : RunsDb) (world : World)
      → commit_to parse cause_text now
          (project db)
          (put_task (settle_task exceeded true options task) (read_project_backlog parse db))
          (end_changes options run_id agent_id task.status (settle_task exceeded true options task))
          runs
        ≡ finished world
      → (db' : Db) × ((commit_backlog parse cause_text now
              (put_task (settle_task exceeded true options task) (read_project_backlog parse db))
              (end_changes options run_id agent_id task.status
                (settle_task exceeded true options task))
              db
            ≡ ok db')
          × (world ≡ record { runs = runs; source = project db' }))
  unfolding commit_to
  commit_to-finished now db options run_id agent_id task runs world h =
      let settled = settle_task exceeded true options task in
      elim (Result-cases (
        commit_backlog parse cause_text now (put_task settled (read_project_backlog parse db))
          (end_changes options run_id agent_id task.status settled) db)) [
            | inl (fault, e) ↦ absurd (ground arith)
            | inr (db', e) ↦ (db', (e, ground arith))
          ]

  task_settled :
      (now : Stamp) (db db' : Db) (options : FinishOptions) (run_id agent_id : String)
      (ref : String) (task : Task)
      → options.success ≡ false
      → find_task (read_project_backlog parse db) ref ≡ some task
      → Distinct (refs_of (tasks_of (read_project_backlog parse db).features))
      → commit_backlog parse cause_text now
          (put_task (settle_task exceeded true options task) (read_project_backlog parse db))
          (end_changes options run_id agent_id task.status (settle_task exceeded true options task))
          db
        ≡ ok db'
      → (row : TaskRow) × ((task_by_ref db'.tasks ref ≡ some row)
          × ((row.status ≡ status_after options task)
              × (row.attempt_count ≡ attempts_after options task)))
  task_settled now db db' options run_id agent_id ref task failed at apart h =
      let settled = settle_task exceeded true options task in
      let backlog = read_project_backlog parse db in
      let changes = end_changes options run_id agent_id task.status settled in
      let named : task.ref ≡ ref = find_in_ref backlog.features ref {t = task} at in
      let same : settled.ref ≡ ref = settle-ref exceeded options task ∙ named in
      let there : find_task backlog settled.ref ≡ some task =
        subst (λ r. find_task backlog r ≡ some task) (sym same) at in
      let all =
        (commit_backlog-AllCommitted parse cause_text now (put_task settled backlog) changes db db'
          (end_changes-Unkeyed options run_id agent_id task.status settled)
          (subst Distinct (sym (refs-put_in settled backlog.features)) apart) h).0 in
      let c =
        All-put_in (λ (t : Task). Committed parse cause_text now t changes db db') settled
          backlog.features {old = task} there all in
      (
        c.row,
        (
          subst (λ r. task_by_ref db'.tasks r ≡ some c.row) same c.after,
          (
            c.status ∙ settle-status exceeded options task failed,
            c.attempts ∙ settle-attempts exceeded options task failed,
          ),
        ),
      )

  end_claim-Failed :
      (now : Stamp) (agent_id : String) (options : FinishOptions) (runs : RunsDb) (db : Db)
      (claim : Claim) (task : Task) (world : World)
      → IsTable runs.claims
      → claim_of runs claim.run_id ≡ some claim
      → options.success ≡ false
      → find_task (read_project_backlog parse db) claim.task_ref ≡ some task
      → is_running task.status ≡ true
      → Distinct (refs_of (tasks_of (read_project_backlog parse db).features))
      → end_claim valid parse cause_text exceeded now options agent_id claim
          (record { runs = runs; source = project db })
        ≡ finished world
      → Failed options claim task world
  end_claim-Failed now agent_id options runs db claim task world table there failed at running apart
        h =
      let ended = finished_claim options claim in
      elim (Result-cases (save valid ended (end_event options agent_id claim) runs)) [
        | inl (fault, e) ↦ absurd (ground arith)
        | inr ((new, runs'), e) ↦
            let follows : Follows ended claim = record {
              run_id = refl;
              task_ref = refl;
              active = λ a. absurd (ground arith);
            } in
            let s =
              save-Saved valid claim ended (end_event options agent_id claim) runs runs'
                {saved = new} table there follows e in
            let (db', (committed, same)) =
              commit_to-finished now db options claim.run_id agent_id task runs' world
                (ground arith) in
            let (row, (found, (status, attempts))) =
              task_settled now db db' options claim.run_id agent_id claim.task_ref task failed at
                apart committed in
            record {
              db = db';
              stored = ap (λ (w : World). w.source) same;
              row = row;
              found = found;
              status = status;
              attempts = attempts;
              ended = ap (λ (w : World). claim_of w.runs claim.run_id) same ∙ s.stored;
            }
      ]

  -- When a failed run of an active claim is reported in a project whose backlog lists each task once,
  -- and the report is carried out, the claim has ended, and its task, which was claimed or in progress,
  -- is back in the queue or blocked: blocked if the policy says so or if this is the fifth failure that
  -- counts. The failure is counted once, unless it lies with the infrastructure or blocks at once.
  pub finish_run-Failed :
      (now : Stamp) (run_id agent_id : String) (options : FinishOptions) (runs : RunsDb) (db : Db)
      (world : World) {claim : Claim} {task : Task}
      → IsTable runs.claims
      → owned_claim runs run_id agent_id ≡ ok claim
      → is_active claim.state ≡ true
      → options.success ≡ false
      → find_task (read_project_backlog parse db) claim.task_ref ≡ some task
      → is_running task.status ≡ true
      → Distinct (refs_of (tasks_of (read_project_backlog parse db).features))
      → finish_run valid parse cause_text exceeded now run_id agent_id options
          (record { runs = runs; source = project db })
        ≡ finished world
      → Failed options claim task world
  unfolding finish_run
  finish_run-Failed now run_id agent_id options runs db world {claim} {task} table owned active
        failed at running apart h =
      let found = owned_claim-found runs run_id agent_id {c = claim} owned in
      let there =
        subst (λ id. claim_of runs id ≡ some claim)
          (sym (claim_of-run_id runs run_id {c = claim} found)) found in
      elim (Bool-cases (is_valid options.at)) [
        | inr bad ↦ absurd (ground arith)
        | inl good ↦
            end_claim-Failed now agent_id options runs db claim task world table there failed at
              running apart (ground arith)
      ]

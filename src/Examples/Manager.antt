-- ===== src/Examples/Manager.antt =====
-- lib/projectTasks.ts and lib/claimManager.ts on a project with one task, whose run fails.
use orc_state.Base.{
  true, false, [], ◌∷◌, none, some, String, ℕ, ◌≡◌, refl, arith, Result, ok, err, map, Option, All,
  includes,
}
use orc_state.Base.Time.{iso}
use orc_state.Model.Task.{TaskStatus, Priority, Task, Backlog}
use orc_state.Contract.{Cause, failure_requeue}
use orc_state.Store.Schema.{Db, RunState, task_by_ref}
use orc_state.Runs.{commit_claims}
use orc_state.Projects.{Metadata, Changes, CommitFault, commit_backlog, tasks_of}
use orc_state.Projects.Commit.{Committed, commit_backlog-AllCommitted}
use orc_state.Projects.Reading.{read_project_backlog}
use orc_state.Manager.{
  World, Outcome, project, finished, stopped, refused, undone, FinishOptions, finish_run, put_task,
}
use orc_state.Model.Claim.{Claim, TaskSpecSnapshot}
use orc_state.Runs.{RunsDb, snapshot_not_written}
use orc_state.Manager.Expiry.{is_kept, expire_leases}
use orc_state.Runs.Update.{AllFollow}
use orc_state.Manager.Sweep.{expire_leases_in_time}
use orc_state.Store.Schema.{TaskRow}
use orc_state.Manager.Claiming.{claim_task_run}
use orc_state.Store.Schema.{RunRow, Fault}
use orc_state.Manager.{Source}
use orc_state.Manager.Restore.{restore_backlog_statuses}
use orc_state.Manager.Restored.{Resumed, restore_backlog_statuses-Resumed}
use orc_state.Manager.Undone.{Returned, claim_task_run-Returned}
use orc_state.Manager.Finish.{Failed, finish_run-Failed}
use orc_state.Examples.Claims.{runs_db, running, accept, runs_db-IsTable}

abbrev store : Db
store = record {
  tasks =
      record {
        ref = "a";
        title = "title";
        status = TaskStatus.in_progress;
        priority = Priority.normal;
        required_provider = none;
        attempt_count = 4;
        blocked_reason = none;
        created_at = iso 1;
        updated_at = iso 1;
        owner = none;
        planning_state = none;
        delegated_by = none;
        task_type = none;
        requeue_eligible_after = none;
      }
      ∷ [];
  revisions =
      record {
        task_ref = "a";
        revision = 1;
        content_hash = "hash";
        body_markdown = "body";
        title = "title";
        metadata_json = "{}";
        created_at = iso 1;
      }
      ∷ [];
  dependencies = [];
  transitions = [];
  last_transition_id = 0;
  runs =
      record {
        run_id = "run1";
        task_ref = "a";
        spec_revision = 1;
        agent_id = some "alice";
        state = RunState.in_progress;
        created_at = iso 1;
        updated_at = iso 1;
      }
      ∷ [];
}

abbrev no_metadata : String → Metadata
no_metadata text = record {
  feature = none;
  task_type = none;
  description = none;
  acceptance_criteria = none;
  review_level = none;
  merge_strategy = none;
  required_capabilities = none;
  model = none;
}

abbrev text_of : Cause → String
text_of cause = "cause"

abbrev too_many : ℕ → String
too_many attempts = "max_attempts_exceeded"

-- The fifth failure.
abbrev failing : FinishOptions
failing = record {
  success = false;
  failure_reason = some "tests fail";
  failure_code = none;
  policy = "requeue";
  emit_event = true;
  at = iso 60;
}

abbrev world_of : Outcome → World
world_of (finished world) = world
world_of (stopped fault world) = world
world_of (undone fault world) = world
world_of (refused fault) = record { runs = runs_db; source = project store }

abbrev listed : Backlog
unfolding read_project_backlog
listed = read_project_backlog no_metadata store

abbrev task_or : Option Task → Task → Task
task_or none t = t
task_or (some t) u = t

abbrev the_task : Task
unfolding listed
the_task = record {
  ref = "a";
  title = "title";
  status = TaskStatus.in_progress;
  task_type = some "implementation";
  priority = some Priority.normal;
  planning_state = none;
  required_capabilities = none;
  required_provider = none;
  depends_on = none;
  attempt_count = some 4;
  requeue_eligible_after = none;
  blocked_reason = none;
  owner = none;
  description = none;
  acceptance_criteria = none;
  review_level = none;
  merge_strategy = none;
  model = none;
  delegated_by = none;
  spec_revision = some 1;
  created_at = some (iso 1);
  updated_at = some (iso 1);
}

abbrev after_failure : World
unfolding finish_run
after_failure = world_of (
    finish_run accept no_metadata text_of too_many (iso 61) "run1" "alice" failing
      (record { runs = runs_db; source = project store }))

finish_run-Failed_example :
    Failed accept no_metadata text_of too_many failing running the_task after_failure
unfolding finish_run after_failure read_project_backlog commit_claims
finish_run-Failed_example =
    finish_run-Failed accept no_metadata text_of too_many (iso 61) "run1" "alice" failing runs_db
      store after_failure {claim = running} {task = the_task} runs_db-IsTable refl refl refl refl
      refl (refl, tt) refl

-- The task is put back into the queue.
abbrev requeued : Backlog
unfolding listed
requeued = put_task (record the_task { status = TaskStatus.todo }) listed

abbrev requeueing : Changes
requeueing =
    (
      "a",
      record {
        cause = failure_requeue;
        reason = none;
        run_id = some "run1";
        actor_id = some "alice";
        idempotency_key = none;
      },
    )
    ∷ []

abbrev db_of_commit : Result CommitFault Db → Db
db_of_commit (ok db) = db
db_of_commit (err fault) = store

abbrev after_commit : Db
unfolding commit_backlog requeued listed
after_commit = db_of_commit (commit_backlog no_metadata text_of (iso 70) requeued requeueing store)

commit_backlog-AllCommitted_example :
    All
      (λ (t : Task). Committed no_metadata text_of (iso 70) t requeueing store after_commit)
      (tasks_of requeued.features)
    × ((other : String)
        → includes (map (λ (t : Task). t.ref) (tasks_of requeued.features)) other ≡ false
        → task_by_ref after_commit.tasks other ≡ task_by_ref store.tasks other)
unfolding commit_backlog after_commit requeued listed
commit_backlog-AllCommitted_example =
    commit_backlog-AllCommitted no_metadata text_of (iso 70) requeued requeueing store after_commit
      (λ ref change given. ground arith) (refl, tt) refl

-- The lease ends at 100 and the sweep is at 200: the fifth attempt is used up.
abbrev swept : World
unfolding expire_leases
swept = world_of (
    expire_leases accept no_metadata text_of too_many 200 "requeue" "coordinator"
      (record { runs = runs_db; source = project store }))

expire_leases_in_time_example :
    All
      (λ (c : Claim). is_kept 200 true (read_project_backlog no_metadata store) c ≡ true)
      swept.runs.claims
    × AllFollow swept.runs.claims runs_db.claims
unfolding swept expire_leases
expire_leases_in_time_example =
    expire_leases_in_time accept no_metadata text_of too_many 200 "requeue" "coordinator" runs_db
      store swept runs_db-IsTable refl

-- The task waits in the queue, and no claim is active.
abbrev queued : Db
queued = record store {
  tasks = map (λ (t : TaskRow). record t { status = TaskStatus.todo }) store.tasks;
  runs = [];
}

abbrev no_runs : RunsDb
no_runs = record runs_db { claims = [] }

abbrev not_written : String → ℕ → Option TaskSpecSnapshot
not_written run_id revision = none

abbrev given_back : World
unfolding claim_task_run
given_back = world_of (
    claim_task_run accept no_metadata text_of not_written 300 "run2" "a" "alice" 1000 false
      (record { runs = no_runs; source = project queued }))

claim_task_run-Returned_example : Returned "a" no_runs queued given_back
unfolding given_back claim_task_run read_project_backlog
claim_task_run-Returned_example =
    claim_task_run-Returned accept no_metadata text_of not_written 300 "run2" "a" "alice" 1000 false
      snapshot_not_written no_runs queued given_back refl

-- A reset closed the run and put the task back into the queue.
abbrev after_reset : Db
after_reset = record store {
  tasks = map (λ (t : TaskRow). record t { status = TaskStatus.todo }) store.tasks;
  runs = map (λ (r : RunRow). record r { state = RunState.failed }) store.runs;
}

abbrev db_in : Result Fault Source → Db
db_in (ok (project db)) = db
db_in _ = store

abbrev rolled_back : Db
unfolding restore_backlog_statuses listed
rolled_back = db_in (restore_backlog_statuses (iso 80) listed runs_db.claims (project after_reset))

restore_backlog_statuses-Resumed_example : Resumed runs_db.claims "a" after_reset rolled_back
unfolding restore_backlog_statuses rolled_back listed
restore_backlog_statuses-Resumed_example =
    restore_backlog_statuses-Resumed (iso 80) listed runs_db.claims "a" after_reset rolled_back refl

rolled_back_test : map (λ (t : TaskRow). t.status) rolled_back.tasks ≡ TaskStatus.in_progress ∷ []
unfolding rolled_back restore_backlog_statuses listed
rolled_back_test = refl

-- ===== src/Manager.antt =====
-- lib/claimManager.ts: startRun and finishRun, which change a claim and its task. The claim is committed
-- to the run store before the backlog is, so a fault of the second leaves the first: an `Outcome`
-- says what stands. A project's state directory has a store, an older one a backlog file.
-- `exceeded` is the text of the reason for too many attempts.
pub mod References
pub mod Finish
pub mod Expiry
pub mod Sweep
pub mod Claiming
pub mod Undone
pub mod Restore
pub mod Restored
use orc_state.Base.{
  Bool, true, false, not, ◌&&◌, ◌||◌, List, [], ◌∷◌, ◌++◌, map, Option, none, some, String, ℕ, ◌+◌,
  ◌==◌, find, any_of, modify_first, if◌then◌else◌, is_some, opt_eq, or_default, or_else, truthy,
  leb, nat_eq, Result, ok, err, ◌>>=◌, ◌>>◌, throw_if,
}
use orc_state.Base.Time.{Stamp, iso, get_time, is_valid}
use orc_state.Model.Claim.{Claim, ClaimState, is_active, is_claimed, is_in_progress}
use orc_state.Model.Task.{TaskStatus, Task, Feature, Backlog, is_running}
use orc_state.Contract.{
  Cause, run_start, merge_succeeded, failure_block, failure_requeue, status_eq,
}
use orc_state.Store.Schema.{Db}
use orc_state.Runs.{
  Event, ActorType, RunsDb, ClaimFault, agent_actor, run_started, run_finished, run_failed,
  no_payload, empty_payload, failure_payload, wrong_state, invalid_timestamp,
}
use orc_state.Claims.{owned_claim, claim_event, save}
use orc_state.Backoff.{requeue_backoff_ms}
use orc_state.Projects.Reading.{read_project_backlog}
use orc_state.Projects.{Metadata, TaskStatusChange, Changes, CommitFault, commit_backlog}

-- Where the tasks are kept.
pub data Source : Type 0 where
  project : Db → Source
  legacy : Backlog → Source

pub record World : Type 0 where
  pub runs : RunsDb
  pub source : Source

pub data Outcome : Type 0 where
  refused : ClaimFault → Outcome
  stopped : CommitFault → World → Outcome
  undone : ClaimFault → World → Outcome
  finished : World → Outcome

abbrev pub is_project : Source → Bool
is_project (project db) = true
is_project (legacy backlog) = false

abbrev pub find_in : List Feature → String → Option Task
find_in [] ref = none
find_in (feature ∷ features) ref =
    or_else (find (λ (t : Task). t.ref == ref) feature.tasks) (find_in features ref)

-- `findTask`.
abbrev pub find_task : Backlog → String → Option Task
find_task backlog ref = find_in backlog.features ref

-- `findTask` returns a reference, through which the task is changed.
abbrev pub put_in : Task → List Feature → List Feature
put_in task [] = []
put_in task (feature ∷ features) =
    let rest = put_in task features in
    if any_of (λ (t : Task). t.ref == task.ref) feature.tasks
    then record feature {
      tasks = modify_first (λ (t : Task). t.ref == task.ref) (λ _. task) feature.tasks;
    }
      ∷ features
    else feature ∷ rest

abbrev pub put_task : Task → Backlog → Backlog
put_task task backlog = record { features = put_in task backlog.features }

-- `resetClaimVolatileFields`.
abbrev pub reset_claim_volatile_fields : Claim → Claim
reset_claim_volatile_fields claim = record claim {
  input_state = none;
  input_requested_at = none;
  session_start_retry_count = some 0;
  session_start_retry_next_at = none;
  session_start_last_error = none;
}

abbrev pub clear_finalization : Claim → Claim
clear_finalization claim = record claim {
  finalization_state = none;
  finalization_retry_count = some 0;
  finalization_blocked_reason = none;
}

abbrev pub started_claim : Stamp → Claim → Claim
started_claim at claim =
    reset_claim_volatile_fields
      (record claim { state = ClaimState.in_progress; started_at = some at })

pub record FinishOptions : Type 0 where
  pub success : Bool
  pub failure_reason : Option String
  pub failure_code : Option String
  pub policy : String
  pub emit_event : Bool
  pub at : Stamp

abbrev pub end_state : Bool → ClaimState
end_state success = if success then ClaimState.done else ClaimState.failed

abbrev pub finished_claim : FinishOptions → Claim → Claim
finished_claim options claim = clear_finalization (
    reset_claim_volatile_fields (record claim {
      state = end_state options.success;
      finished_at = some options.at;
      failure_reason =
          if not options.success && truthy options.failure_reason
          then options.failure_reason
          else claim.failure_reason;
    }))

abbrev pub is_over : ClaimState → Bool
is_over ClaimState.done = true
is_over ClaimState.failed = true
is_over _ = false

abbrev pub in_end_state : Bool → ClaimState → Bool
in_end_state true ClaimState.done = true
in_end_state false ClaimState.failed = true
in_end_state _ _ = false

-- A count that is neither absent nor zero.
abbrev pub counts : Option ℕ → Bool
counts none = false
counts (some n) = not (nat_eq n 0)

abbrev pub has_finalization : Claim → Bool
has_finalization claim =
    is_some claim.finalization_state
    || counts claim.finalization_retry_count
    || is_some claim.finalization_blocked_reason

-- Failures of dispatch and of the start of a session.
abbrev pub is_infra_failure : Option String → Bool
is_infra_failure code =
    opt_eq code (some "ERR_DISPATCH_FAILURE")
    || opt_eq code (some "ERR_RUN_START_TIMEOUT")
    || opt_eq code (some "ERR_SESSION_START_FAILED")

-- `MAX_ATTEMPTS`.
abbrev pub max_attempts : ℕ
max_attempts = 5

abbrev pub wait_until : Stamp → ℕ → Option Stamp
wait_until at attempts = elim (get_time at) [
  | none ↦ none
  | some now ↦ some (iso (now + requeue_backoff_ms attempts))
]

module _ (exceeded : ℕ → String) where
  abbrev pub count_attempt : Stamp → ℕ → Task → Task
  count_attempt at attempts task =
      if leb max_attempts attempts
      then record task {
        attempt_count = some attempts;
        status = TaskStatus.blocked;
        blocked_reason = some (exceeded attempts);
      }
      else record task {
        attempt_count = some attempts;
        status = TaskStatus.todo;
        requeue_eligible_after = wait_until at attempts;
      }

  -- What the end of a run does to its task.
  abbrev pub settle_task : Bool → FinishOptions → Task → Task
  settle_task in_project options task =
      if options.success
      then (if in_project then task else record task { status = TaskStatus.done })
      else if options.policy == "block"
      then record task { status = TaskStatus.blocked }
      else if is_infra_failure options.failure_code
      then record task { status = TaskStatus.todo }
      else count_attempt options.at (or_default task.attempt_count 0 + 1) task

-- In a project an operator may have moved the task off this run: then it keeps its status.
abbrev pub task_of_run : Bool → Option Task → Option Task
task_of_run in_project none = none
task_of_run in_project (some task) =
    if not in_project || is_running task.status then some task else none

abbrev pub end_event : FinishOptions → String → Claim → List Event
end_event options agent_id claim =
    if not options.emit_event
    then []
    else if options.success
    then claim_event options.at run_finished agent_actor agent_id claim empty_payload ∷ []
    else claim_event options.at run_failed agent_actor agent_id claim
        (failure_payload options.failure_reason options.failure_code options.policy)
      ∷ []

abbrev pub end_cause : TaskStatus → Cause
end_cause TaskStatus.done = merge_succeeded
end_cause TaskStatus.blocked = failure_block
end_cause _ = failure_requeue

-- The changes that are committed with the task.
abbrev pub end_changes : FinishOptions → String → String → TaskStatus → Task → Changes
end_changes options run_id agent_id previous task =
    if status_eq task.status previous
    then []
    else (
      task.ref,
      record {
        cause = end_cause task.status;
        reason =
            or_else (or_else task.blocked_reason options.failure_reason)
              (if options.policy == "block" then some "run failed with block policy" else none);
        run_id = some run_id;
        actor_id = some agent_id;
        idempotency_key = none;
      },
    )
      ∷ []

abbrev pub start_change : String → String → String → Changes
start_change ref run_id actor_id =
    (
      ref,
      record {
        cause = run_start;
        reason = none;
        run_id = some run_id;
        actor_id = some actor_id;
        idempotency_key = none;
      },
    )
    ∷ []

module _ (parse : String → Metadata) (cause_text : Cause → String) where
  -- `readJson(stateDir, 'backlog.json')`.
  abbrev pub backlog_of : Source → Backlog
  backlog_of (project db) = read_project_backlog parse db
  backlog_of (legacy backlog) = backlog

  -- `commitBacklog`, after the claims were committed.
  unfoldable pub commit_to : Stamp → Source → Backlog → Changes → RunsDb → Outcome
  unfolding commit_backlog read_project_backlog
  commit_to now (project db) backlog changes runs =
      elim (commit_backlog parse cause_text now backlog changes db) [
        | err fault ↦ stopped fault (record { runs = runs; source = project db })
        | ok db' ↦ finished (record { runs = runs; source = project db' })
      ]
  commit_to now (legacy old) backlog changes runs =
      finished (record { runs = runs; source = legacy backlog })

module _ (valid : Event → Bool) (parse : String → Metadata) (cause_text : Cause → String)
    (exceeded : ℕ → String) where
  -- What follows the commit of the claims.
  abbrev pub after_claims : Result ClaimFault (Claim × RunsDb) → (RunsDb → Outcome) → Outcome
  after_claims (err fault) next = refused fault
  after_claims (ok saved) next = next saved.1

  abbrev pub start_task : Stamp → String → String → Source → Option Task → RunsDb → Outcome
  start_task now run_id actor_id source none runs =
      finished (record { runs = runs; source = source })
  start_task now run_id actor_id source (some task) runs =
      commit_to parse cause_text now source
        (put_task (record task { status = TaskStatus.in_progress })
          (backlog_of parse cause_text source))
        (start_change task.ref run_id actor_id) runs

  abbrev pub start_claimed : Stamp → Bool → Stamp → ActorType → String → Claim → World → Outcome
  start_claimed now emit_event at actor_type actor_id claim world =
      after_claims
        (save valid (started_claim at claim)
          (if emit_event
            then claim_event at run_started actor_type actor_id claim no_payload ∷ []
            else [])
          world.runs)
        (start_task now claim.run_id actor_id world.source
          (find_task (backlog_of parse cause_text world.source) claim.task_ref))

  -- `startRun`; `actor_id` is the agent's unless one is given.
  unfoldable pub start_run :
      Stamp → String → String → Bool → Stamp → ActorType → Option String → World → Outcome
  unfolding commit_to save
  start_run now run_id agent_id emit_event at actor_type actor_id world =
      elim (owned_claim world.runs run_id agent_id) [
        | err fault ↦ refused fault
        | ok claim ↦
            if is_in_progress claim.state
            then finished world
            else if not (is_claimed claim.state)
            then refused (wrong_state claim.state)
            else if not (is_valid at)
            then refused invalid_timestamp
            else start_claimed now emit_event at actor_type (or_default actor_id agent_id) claim
                world
      ]

  abbrev pub finish_task :
      Stamp → FinishOptions → String → String → Source → Option Task → RunsDb → Outcome
  finish_task now options run_id agent_id source none runs =
      finished (record { runs = runs; source = source })
  finish_task now options run_id agent_id source (some task) runs =
      let settled = settle_task exceeded (is_project source) options task in
      commit_to parse cause_text now source (put_task settled (backlog_of parse cause_text source))
        (end_changes options run_id agent_id task.status settled) runs

  -- A claim that is over already: a repeated report repairs stale finalization fields at most.
  abbrev pub repair : FinishOptions → Claim → World → Outcome
  repair options claim world =
      if in_end_state options.success claim.state && has_finalization claim
      then after_claims (save valid (clear_finalization claim) [] world.runs)
          (λ runs. finished (record { runs = runs; source = world.source }))
      else finished world

  abbrev pub end_claim : Stamp → FinishOptions → String → Claim → World → Outcome
  end_claim now options agent_id claim world =
      after_claims
        (save valid (finished_claim options claim) (end_event options agent_id claim) world.runs)
        (finish_task now options claim.run_id agent_id world.source (
          task_of_run (is_project world.source)
            (find_task (backlog_of parse cause_text world.source) claim.task_ref)))

  unfoldable pub finish_run : Stamp → String → String → FinishOptions → World → Outcome
  unfolding commit_to save
  finish_run now run_id agent_id options world = elim (owned_claim world.runs run_id agent_id) [
    | err fault ↦ refused fault
    | ok claim ↦
        if not (is_valid options.at)
        then refused invalid_timestamp
        else if is_over claim.state
        then repair options claim world
        else end_claim now options agent_id claim world
  ]

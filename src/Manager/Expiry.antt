-- ===== src/Manager/Expiry.antt =====
-- lib/claimLeaseManager.ts, _expireLeasesCore: claims whose lease or whose wait for input is over fail, and
-- their tasks are requeued or blocked. `expired_text` is the text of the reason for too many attempts.
use orc_state.Base.{
  Bool, true, false, not, ◌&&◌, ◌||◌, List, [], ◌∷◌, Option, none, some, String, ℕ, ◌+◌, ◌==◌,
  if◌then◌else◌, or_default, or_else, ltb, leb, Result, ok, err,
}
use orc_state.Base.Time.{Stamp, iso, get_time, after, stamp_truthy, opt_stamp_truthy}
use orc_state.Model.Claim.{Claim, ClaimState, is_active, is_awaiting}
use orc_state.Model.Task.{TaskStatus, Task, Backlog, is_finished}
use orc_state.Contract.{Cause, failure_block, failure_requeue}
use orc_state.Runs.{
  Event, RunsDb, ClaimFault, coordinator_actor, claim_expired, expiry_payload, commit_claims,
}
use orc_state.Backoff.{requeue_backoff_ms}
use orc_state.Projects.{Metadata, TaskStatusChange, Changes}
use orc_state.Manager.{
  Source, World, Outcome, refused, finished, is_project, find_task, put_task,
  reset_claim_volatile_fields, max_attempts, backlog_of, commit_to, task_of_run,
}

-- `INPUT_WAIT_TIMEOUT_MS` of lib/constants.ts.
abbrev pub input_wait_timeout_ms : ℕ
input_wait_timeout_ms = 3600000

-- The time since which a claim waits for input.
abbrev pub waits_since : Claim → Stamp
waits_since c =
    if opt_stamp_truthy c.input_requested_at
    then or_default c.input_requested_at c.claimed_at
    else or_default c.last_heartbeat_at c.claimed_at

-- `now - since < timeout`, false if the time cannot be read.
abbrev pub within_wait : ℕ → Option ℕ → Bool
within_wait now none = false
within_wait now (some since) = ltb now (since + input_wait_timeout_ms)

-- An active claim whose lease runs, or that may still wait for input.
abbrev pub is_in_time : ℕ → Claim → Bool
is_in_time now c =
    if is_awaiting c.input_state
    then within_wait now (get_time (waits_since c))
    else not (stamp_truthy c.lease_expires_at) || after c.lease_expires_at now

-- A merged task of a project is in its finalize window.
abbrev pub finished_task : Option Task → Bool
finished_task none = false
finished_task (some task) = is_finished task.status

abbrev pub is_merged : Bool → Backlog → Claim → Bool
is_merged in_project backlog c = in_project && finished_task (find_task backlog c.task_ref)

abbrev pub is_kept : ℕ → Bool → Backlog → Claim → Bool
is_kept now in_project backlog c =
    not (is_active c.state) || is_in_time now c || is_merged in_project backlog c

abbrev pub expiry_code : Claim → String
expiry_code c = if is_awaiting c.input_state then "ERR_INPUT_TIMEOUT" else "ERR_LEASE_EXPIRED"

abbrev pub expired_claim : ℕ → Claim → Claim
expired_claim now c = reset_claim_volatile_fields (record c {
  state = ClaimState.failed;
  finished_at = some (iso now);
  failure_reason = if is_awaiting c.input_state then some "ERR_INPUT_TIMEOUT" else c.failure_reason;
})

-- The event of the expiry; it names no agent.
abbrev pub expiry_event : ℕ → String → String → Claim → Event
expiry_event now actor_id policy c = record {
  ts = iso now;
  name = claim_expired;
  actor_type = coordinator_actor;
  actor_id = actor_id;
  run_id = c.run_id;
  task_ref = c.task_ref;
  agent_id = none;
  payload = expiry_payload policy (expiry_code c);
}

abbrev is_blocked : TaskStatus → Bool
is_blocked TaskStatus.blocked = true
is_blocked _ = false

-- The tables that the loop changes.
pub record Sweep : Type 0 where
  pub claims : List Claim
  pub backlog : Backlog
  pub changes : Changes
  pub events : List Event

module _ (expired_text : ℕ → String) (now : ℕ) (policy actor_id : String) (in_project : Bool) where
  abbrev pub expire_attempt : ℕ → Task → Task
  expire_attempt attempts task =
      if leb max_attempts attempts
      then record task {
        attempt_count = some attempts;
        status = TaskStatus.blocked;
        blocked_reason = some (expired_text attempts);
      }
      else record task {
        attempt_count = some attempts;
        status = TaskStatus.todo;
        requeue_eligible_after = some (iso (now + requeue_backoff_ms attempts));
      }

  abbrev pub expire_task : Task → Task
  expire_task task =
      if policy == "block"
      then record task { status = TaskStatus.blocked }
      else expire_attempt (or_default task.attempt_count 0 + 1) task

  abbrev pub expiry_change : Claim → Task → TaskStatusChange
  expiry_change c task = record {
    cause = if is_blocked task.status then failure_block else failure_requeue;
    reason = or_else task.blocked_reason (some (expiry_code c));
    run_id = some c.run_id;
    actor_id = some actor_id;
    idempotency_key = none;
  }

  abbrev pub settle_expired : Claim → Option Task → Backlog → Changes → Backlog × Changes
  settle_expired c none backlog changes = (backlog, changes)
  settle_expired c (some task) backlog changes =
      let task' = expire_task task in
      (put_task task' backlog, (c.task_ref, expiry_change c task') ∷ changes)

  unfoldable pub expire_each : List Claim → Backlog → Changes → Sweep
  expire_each [] backlog changes = record {
    claims = [];
    backlog = backlog;
    changes = changes;
    events = [];
  }
  expire_each (c ∷ cs) backlog changes = elim (is_kept now in_project backlog c) [
    | true ↦ let rest = expire_each cs backlog changes in record rest { claims = c ∷ rest.claims }
    | false ↦
        let settled =
          settle_expired c (task_of_run in_project (find_task backlog c.task_ref)) backlog
            changes in
        let rest = expire_each cs settled.0 settled.1 in
        record rest {
          claims = expired_claim now c ∷ rest.claims;
          events = expiry_event now actor_id policy c ∷ rest.events;
        }
  ]

module _ (valid : Event → Bool) (parse : String → Metadata) (cause_text : Cause → String)
    (expired_text : ℕ → String) where
  abbrev pub commit_sweep : Stamp → Source → Sweep → Result ClaimFault RunsDb → Outcome
  commit_sweep at source sweep (err fault) = refused fault
  commit_sweep at source sweep (ok runs) =
      commit_to parse cause_text at source sweep.backlog sweep.changes runs

  -- Nothing is written if no claim has expired.
  unfoldable pub expire_leases : ℕ → String → String → World → Outcome
  unfolding expire_each commit_claims commit_to
  expire_leases now policy actor_id world =
      let sweep =
        expire_each expired_text now policy actor_id (is_project world.source) world.runs.claims
          (backlog_of parse cause_text world.source) [] in
      elim sweep.events [
        | [] ↦ finished world
        | _ ∷ _ ↦
            commit_sweep (iso now) world.source sweep
              (commit_claims valid sweep.claims sweep.events world.runs)
      ]

-- ===== src/Claims.antt =====
-- lib/claimStateManager.ts and the part of lib/claimManager.ts that touches claims alone. The clock is
-- the argument `now`; `valid` is the event validator of `Runs`.
pub mod Fields
pub mod Lease
pub mod Wellformed
use orc_state.Base.{
  Bool, true, false, not, ◌&&◌, ◌||◌, List, [], ◌∷◌, Option, none, some, String, ℕ, ◌+◌, ◌==◌, find,
  modify_first, if◌then◌else◌, or_default, is_some, ltb, nat_eq, Result, ok, err, ◌>>=◌, ◌>>◌,
  throw_if,
}
use orc_state.Base.Time.{Stamp, iso, is_valid, before, opt_stamp_truthy, stamp_truthy, get_time}
use orc_state.Base.Int.{ℤ, add_clamped}
use orc_state.Model.Claim.{
  Claim, ClaimState, FinalizationState, InputState, is_active, is_claimed, is_in_progress,
  is_awaiting,
}
use orc_state.Runs.{
  Event, EventName, ActorType, Payload, agent_actor, task_envelope_sent, heartbeat, empty_payload,
  lease_payload, RunsDb, ClaimFault, claim_not_found, belongs_to, wrong_state, invalid_timestamp,
  lease_expired, invalid_pr_ref, invalid_seq, commit_claims,
}

-- `DEFAULT_LEASE_MS` of lib/constants.ts.
abbrev pub default_lease_ms : ℕ
default_lease_ms = 1800000

abbrev pub has_run_id : String → Claim → Bool
has_run_id run_id c = c.run_id == run_id

abbrev pub claim_of : RunsDb → String → Option Claim
claim_of db run_id = find (has_run_id run_id) db.claims

-- `if (!claim) throw …`.
abbrev pub found_claim : String → Option Claim → Result ClaimFault Claim
found_claim run_id none = err (claim_not_found run_id)
found_claim run_id (some c) = ok c

-- The claim of the run, which must belong to the agent.
abbrev pub owned_claim : RunsDb → String → String → Result ClaimFault Claim
owned_claim db run_id agent_id = do
  claim ← found_claim run_id (claim_of db run_id)
  throw_if (not (claim.agent_id == agent_id)) (belongs_to claim.agent_id)
  ok claim

abbrev pub claim_event : Stamp → EventName → ActorType → String → Claim → Payload → Event
claim_event at name actor_type actor_id claim payload = record {
  ts = at;
  name = name;
  actor_type = actor_type;
  actor_id = actor_id;
  run_id = claim.run_id;
  task_ref = claim.task_ref;
  agent_id = some claim.agent_id;
  payload = payload;
}

abbrev bad_option : Option Stamp → Bool
bad_option none = false
bad_option (some t) = not (is_valid t)

-- A sequence number must be a positive safe integer.
abbrev bad_seq : Option ℕ → Bool
bad_seq none = false
bad_seq (some n) = ltb n 1 || ltb 9007199254740991 n

abbrev pub expired_at : Stamp → ℕ → Bool
expired_at lease now = stamp_truthy lease && before lease now

module _ (valid : Event → Bool) where
  -- The claim object has been changed in place; the whole list is committed.
  unfoldable pub save : Claim → List Event → RunsDb → Result ClaimFault (Claim × RunsDb)
  save claim events db = do
    db' ←
        commit_claims valid (modify_first (has_run_id claim.run_id) (λ _. claim) db.claims) events
          db
    ok (claim, db')

  unfoldable pub mark_task_envelope_sent :
      String
      → String
      → Bool
      → Stamp
      → ActorType
      → String
      → RunsDb
      → Result ClaimFault (Claim × RunsDb)
  mark_task_envelope_sent run_id agent_id emit_event at actor_type actor_id db = do
    claim ← owned_claim db run_id agent_id
    throw_if (not (is_active claim.state)) (wrong_state claim.state)
    throw_if (not (is_valid at)) invalid_timestamp
    if opt_stamp_truthy claim.task_envelope_sent_at
        then ok (claim, db)
        else save (record claim { task_envelope_sent_at = some at })
            (if emit_event
              then claim_event at task_envelope_sent actor_type actor_id claim empty_payload ∷ []
              else [])
            db

  unfoldable pub set_run_finalization_state :
      String
      → String
      → Option FinalizationState
      → ℤ
      → Option String
      → RunsDb
      → Result ClaimFault (Claim × RunsDb)
  set_run_finalization_state run_id agent_id state retry_count_delta blocked_reason db = do
    claim ← owned_claim db run_id agent_id
    throw_if (not (is_in_progress claim.state)) (wrong_state claim.state)
    save
        (record claim {
          finalization_state = state;
          finalization_retry_count =
              some (add_clamped (or_default claim.finalization_retry_count 0) retry_count_delta);
          finalization_blocked_reason = blocked_reason;
        })
        [] db

  unfoldable pub set_run_input_state :
      String
      → String
      → Option InputState
      → Option Stamp
      → ℕ
      → RunsDb
      → Result ClaimFault (Claim × RunsDb)
  set_run_input_state run_id agent_id input_state requested_at now db = do
    claim ← owned_claim db run_id agent_id
    throw_if (not (is_active claim.state)) (wrong_state claim.state)
    throw_if (bad_option requested_at) invalid_timestamp
    save
        (record claim {
          input_state = input_state;
          input_requested_at =
              if is_awaiting input_state then some (or_default requested_at (iso now)) else none;
        })
        [] db

  unfoldable pub set_run_session_start_retry_state :
      String
      → String
      → ℕ
      → Option Stamp
      → Option String
      → RunsDb
      → Result ClaimFault (Claim × RunsDb)
  set_run_session_start_retry_state run_id agent_id retry_count next_retry_at last_error db = do
    claim ← owned_claim db run_id agent_id
    throw_if (not (is_claimed claim.state)) (wrong_state claim.state)
    throw_if (bad_option next_retry_at) invalid_timestamp
    save
        (record claim {
          session_start_retry_count = some retry_count;
          session_start_retry_next_at = if ltb 0 retry_count then next_retry_at else none;
          session_start_last_error = if ltb 0 retry_count then last_error else none;
        })
        [] db

  unfoldable pub set_escalation_notified : String → ℕ → RunsDb → Result ClaimFault (Claim × RunsDb)
  set_escalation_notified run_id now db = do
    claim ← found_claim run_id (claim_of db run_id)
    save (record claim { escalation_notified_at = some (iso now) }) [] db

  unfoldable pub set_pr_ref : String → String → RunsDb → Result ClaimFault (Claim × RunsDb)
  set_pr_ref run_id pr_ref db = do
    claim ← found_claim run_id (claim_of db run_id)
    throw_if (not (is_in_progress claim.state)) (wrong_state claim.state)
    throw_if (pr_ref == "") invalid_pr_ref
    save (record claim { pr_ref = some pr_ref }) [] db

  unfoldable pub set_pr_created_at :
      String → Stamp → Option ℕ → RunsDb → Result ClaimFault (Claim × RunsDb)
  set_pr_created_at run_id created_at seq db = do
    claim ← found_claim run_id (claim_of db run_id)
    throw_if (not (is_in_progress claim.state)) (wrong_state claim.state)
    throw_if (not (is_valid created_at)) invalid_timestamp
    throw_if (bad_seq seq) invalid_seq
    save
        (record claim {
          pr_created_at = some created_at;
          pr_initial_work_complete_seq =
              if is_some seq then seq else claim.pr_initial_work_complete_seq;
        })
        [] db

  -- The lease and the claim after a heartbeat at the instant `now`, which `at` names.
  unfoldable pub heartbeat_run :
      String → String → ℕ → Bool → Stamp → RunsDb → Result ClaimFault (Claim × RunsDb)
  heartbeat_run run_id agent_id lease_duration_ms emit_event at db = do
    claim ← owned_claim db run_id agent_id
    throw_if (not (is_active claim.state)) (wrong_state claim.state)
    elim (get_time at) [
      | none ↦ err invalid_timestamp
      | some now ↦ do
        throw_if (expired_at claim.lease_expires_at now) lease_expired
        let lease = iso (now + lease_duration_ms)
        save (record claim { last_heartbeat_at = some at; lease_expires_at = lease })
            (if emit_event
              then claim_event at heartbeat agent_actor agent_id claim (lease_payload lease) ∷ []
              else [])
            db
    ]

  abbrev renew : ℕ → ℕ → RunsDb → Option Claim → Result ClaimFault RunsDb
  renew now lease_duration_ms db none = ok db
  renew now lease_duration_ms db (some claim) =
      if not (is_active claim.state) || expired_at claim.lease_expires_at now
      then ok db
      else save (record claim { lease_expires_at = iso (now + lease_duration_ms) }) [] db
        >>= λ saved. ok saved.1

  unfoldable pub renew_lease_only : String → ℕ → ℕ → RunsDb → Result ClaimFault RunsDb
  renew_lease_only run_id lease_duration_ms now db =
      renew now lease_duration_ms db (claim_of db run_id)

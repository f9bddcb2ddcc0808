-- ===== src/Examples/Lifecycle.antt =====
-- lib/workerLifecycleReducer.ts on the events of one run.
use orc_state.Base.{Option, none, some, ℕ, ◌≡◌, refl}
use orc_state.Base.Time.{iso}
use orc_state.Model.Claim.{Claim, ClaimState, FinalizationState}
use orc_state.Lifecycle.{
  LifecycleEvent, EventKind, reduce_lifecycle_event, authoritative_ts, work_complete, heartbeat,
}
use orc_state.Lifecycle.Times.{Within, reduce_heartbeat-Within}
use orc_state.Lifecycle.Order.{advanced, finalization_advances_once}

abbrev event : EventKind → ℕ → LifecycleEvent
event kind at = record {
  kind = kind;
  run_id = some "run1";
  agent_id = some "alice";
  ts = some (iso at);
  actor_type = some "agent";
  reason = none;
  code = none;
  policy = none;
}

abbrev claim_in : ClaimState → Option FinalizationState → Claim
claim_in state finalization_state = record {
  run_id = "run1";
  task_ref = "a";
  agent_id = "alice";
  state = state;
  claimed_at = iso 1;
  lease_expires_at = iso 100;
  task_envelope_sent_at = none;
  last_heartbeat_at = some (iso 20);
  started_at = some (iso 2);
  finished_at = none;
  failure_reason = none;
  finalization_state = finalization_state;
  finalization_retry_count = none;
  finalization_blocked_reason = none;
  input_state = none;
  input_requested_at = none;
  session_start_retry_count = none;
  session_start_retry_next_at = none;
  session_start_last_error = none;
  escalation_notified_at = none;
  pr_ref = none;
  pr_created_at = none;
  pr_initial_work_complete_seq = none;
  task_spec_snapshot = none;
}

-- A heartbeat dated in the future counts as one of now.
reduce_heartbeat-Within_example : Within 20 60 60
unfolding reduce_lifecycle_event authoritative_ts
reduce_heartbeat-Within_example =
    reduce_heartbeat-Within (event heartbeat 70) (claim_in ClaimState.in_progress none) 60 20 60
      1800000 refl refl

finalization_advances_once_example :
    advanced (
      reduce_lifecycle_event
        (event work_complete 55)
        (some (claim_in ClaimState.in_progress (some FinalizationState.awaiting_finalize)))
        70)
    ≡ none
unfolding reduce_lifecycle_event
finalization_advances_once_example =
    finalization_advances_once (event work_complete 50) (event work_complete 55)
      (claim_in ClaimState.in_progress none)
      (claim_in ClaimState.in_progress (some FinalizationState.awaiting_finalize)) 60 70
      FinalizationState.awaiting_finalize refl refl refl

-- ===== src/Model/Claim.antt =====
-- types/claims.ts: a claim is one run of a task by an agent.
use orc_state.Base.{Bool, true, false, Option, none, some, String, ℕ}
use orc_state.Base.Time.{Stamp}

pub data ClaimState : Type 0 where
  claimed in_progress done failed : ClaimState

pub data FinalizationState : Type 0 where
  awaiting_finalize finalize_rebase_requested finalize_rebase_in_progress : FinalizationState
  ready_to_merge blocked_finalize pr_created pr_review_in_progress : FinalizationState
  pr_merged pr_failed : FinalizationState

pub data InputState : Type 0 where
  awaiting_input : InputState

pub record TaskSpecSnapshot : Type 0 where
  pub source_path : String
  pub snapshot_path : String
  pub sha256 : String
  pub task_revision : Option ℕ

pub record Claim : Type 0 where
  pub run_id : String
  pub task_ref : String
  pub agent_id : String
  pub state : ClaimState
  pub claimed_at : Stamp
  pub lease_expires_at : Stamp
  pub task_envelope_sent_at : Option Stamp
  pub last_heartbeat_at : Option Stamp
  pub started_at : Option Stamp
  pub finished_at : Option Stamp
  pub failure_reason : Option String
  pub finalization_state : Option FinalizationState
  pub finalization_retry_count : Option ℕ
  pub finalization_blocked_reason : Option String
  pub input_state : Option InputState
  pub input_requested_at : Option Stamp
  pub session_start_retry_count : Option ℕ
  pub session_start_retry_next_at : Option Stamp
  pub session_start_last_error : Option String
  pub escalation_notified_at : Option Stamp
  pub pr_ref : Option String
  pub pr_created_at : Option Stamp
  pub pr_initial_work_complete_seq : Option ℕ
  pub task_spec_snapshot : Option TaskSpecSnapshot

-- `['claimed', 'in_progress'].includes(state)`.
abbrev pub is_active : ClaimState → Bool
is_active ClaimState.claimed = true
is_active ClaimState.in_progress = true
is_active _ = false

-- `state === 'claimed'`, and so on for the other tests of one state.
abbrev pub is_claimed : ClaimState → Bool
is_claimed ClaimState.claimed = true
is_claimed _ = false

abbrev pub is_in_progress : ClaimState → Bool
is_in_progress ClaimState.in_progress = true
is_in_progress _ = false

-- `input_state === 'awaiting_input'`.
abbrev pub is_awaiting : Option InputState → Bool
is_awaiting (some InputState.awaiting_input) = true
is_awaiting none = false

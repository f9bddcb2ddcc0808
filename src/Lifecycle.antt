-- ===== src/Lifecycle.antt =====
-- lib/workerLifecycleReducer.ts: the pure reducer from a lifecycle event and the current claim to the
-- state change that the coordinator applies. `now` is the instant of `nowIso`. An event's name is a
-- constructor, with `other_event` for every name that the reducer does not handle. The field
-- `blockedReason` of `advance_finalization` is null in every action of the reducer and left out.
pub mod Times
pub mod Order
use orc_state.Base.{
  Bool, true, false, not, ◌&&◌, ◌||◌, Option, none, some, String, ℕ, ◌==◌, if◌then◌else◌,
  or_default, or_else, truthy, opt_eq, is_some, min, max,
}
use orc_state.Base.Time.{Stamp, iso, junk, get_time, before, stamp_truthy}
use orc_state.Model.Claim.{
  Claim, ClaimState, FinalizationState, is_active, is_claimed, is_in_progress,
}
use orc_state.Claims.{default_lease_ms}

-- `FINALIZE_LEASE_MS` of lib/constants.ts.
abbrev finalize_lease_ms : ℕ
finalize_lease_ms = 3600000

pub data EventKind : Type 0 where
  input_requested run_started heartbeat : EventKind
  phase_started phase_finished blocked need_input input_provided unblocked review_submitted :
      EventKind
  finalize_rebase_started input_response run_finished run_failed work_complete ready_to_merge :
      EventKind
  other_event : String → EventKind

-- The fields of the payload that are read, each absent unless it is a text.
pub record LifecycleEvent : Type 0 where
  pub kind : EventKind
  pub run_id : Option String
  pub agent_id : Option String
  pub ts : Option Stamp
  pub actor_type : Option String
  pub reason : Option String
  pub code : Option String
  pub policy : Option String

pub data NoopReason : Type 0 where
  coordinator_self_event no_claim missing_run_or_agent lease_expired : NoopReason
  wrong_state already_terminal : ClaimState → NoopReason
  wrong_rebase_state : ClaimState → Option FinalizationState → NoopReason
  finalization_already_started : FinalizationState → NoopReason
  wrong_finalization_state : Option FinalizationState → NoopReason
  unhandled_event : EventKind → NoopReason

pub data LifecycleAction : Type 0 where
  start_run : (at : ℕ) → LifecycleAction
  beat : (at lease_duration_ms : ℕ) → LifecycleAction
  advance_finalization :
      FinalizationState → (retry_count_delta : ℕ) → (extend_lease_ms : Option ℕ) → LifecycleAction
  clear_input_state : LifecycleAction
  set_input_state : (requested_at : ℕ) → LifecycleAction
  finish_run :
      (success : Bool)
      → (reason code : Option String) → (policy : String) → (at : ℕ) → LifecycleAction
  noop : NoopReason → LifecycleAction

-- The instant of the text that `coerceEventTs` returns: the event's, if it can be read.
abbrev pub coerce_event_ts : Option Stamp → ℕ → ℕ
coerce_event_ts (some (iso at)) now = at
coerce_event_ts (some (junk text)) now = now
coerce_event_ts none now = now

abbrev floor_of : Option Stamp → Option ℕ
floor_of none = none
floor_of (some t) = get_time t

-- The event time, not after `now`, but raised to the floor where that can be read.
unfoldable pub authoritative_ts : ℕ → Option Stamp → ℕ → ℕ
authoritative_ts event floor now = elim (floor_of floor) [
  | none ↦ min event now
  | some f ↦ max (min event now) f
]

-- `claim.last_heartbeat_at ?? claim.started_at ?? claim.claimed_at`.
abbrev pub activity_floor : Claim → Option Stamp
activity_floor c = some (or_default (or_else c.last_heartbeat_at c.started_at) c.claimed_at)

-- `claim.finished_at ?? claim.started_at ?? claim.claimed_at`.
abbrev finish_floor : Claim → Option Stamp
finish_floor c = some (or_default (or_else c.finished_at c.started_at) c.claimed_at)

abbrev on_input_requested : LifecycleEvent → ℕ → LifecycleAction
on_input_requested e now =
    if opt_eq e.actor_type (some "coordinator")
    then noop coordinator_self_event
    else set_input_state (authoritative_ts (coerce_event_ts e.ts now) none now)

abbrev on_run_started : LifecycleEvent → Option Claim → ℕ → LifecycleAction
on_run_started e none now = noop no_claim
on_run_started e (some c) now =
    if is_claimed c.state
    then start_run (authoritative_ts (coerce_event_ts e.ts now) (some c.claimed_at) now)
    else noop (wrong_state c.state)

abbrev beat_at : LifecycleEvent → Claim → ℕ → LifecycleAction
beat_at e c now =
    beat (authoritative_ts (coerce_event_ts e.ts now) (activity_floor c) now) default_lease_ms

abbrev on_heartbeat : LifecycleEvent → Option Claim → ℕ → LifecycleAction
on_heartbeat e none now =
    if truthy e.run_id && truthy e.agent_id then noop no_claim else noop missing_run_or_agent
on_heartbeat e (some c) now =
    if truthy e.run_id && truthy e.agent_id
    then if is_in_progress c.state
      then if stamp_truthy c.lease_expires_at && before c.lease_expires_at now
        then noop lease_expired
        else beat_at e c now
      else noop (wrong_state c.state)
    else noop missing_run_or_agent

abbrev on_phase_event : LifecycleEvent → Option Claim → ℕ → LifecycleAction
on_phase_event e none now = noop no_claim
on_phase_event e (some c) now =
    if is_in_progress c.state then beat_at e c now else noop (wrong_state c.state)

abbrev is_requested : Option FinalizationState → Bool
is_requested (some FinalizationState.finalize_rebase_requested) = true
is_requested _ = false

abbrev is_rebasing : Option FinalizationState → Bool
is_rebasing (some FinalizationState.finalize_rebase_in_progress) = true
is_rebasing _ = false

abbrev on_rebase_started : Option Claim → LifecycleAction
on_rebase_started none = noop no_claim
on_rebase_started (some c) =
    if is_in_progress c.state && is_requested c.finalization_state
    then advance_finalization FinalizationState.finalize_rebase_in_progress 1
        (some finalize_lease_ms)
    else noop (wrong_rebase_state c.state c.finalization_state)

abbrev finished_action : LifecycleEvent → Bool → ℕ → LifecycleAction
finished_action e true at = finish_run true none none "requeue" at
finished_action e false at = finish_run false e.reason e.code (or_default e.policy "requeue") at

abbrev on_finish : LifecycleEvent → Bool → Option Claim → ℕ → LifecycleAction
on_finish e success none now = noop no_claim
on_finish e success (some c) now =
    if is_active c.state
    then finished_action e success
        (authoritative_ts (coerce_event_ts e.ts now) (finish_floor c) now)
    else noop (already_terminal c.state)

abbrev on_work_complete : Option Claim → LifecycleAction
on_work_complete none = noop no_claim
on_work_complete (some c) =
    if is_in_progress c.state
    then elim c.finalization_state [
      | none ↦ advance_finalization FinalizationState.awaiting_finalize 0 (some finalize_lease_ms)
      | some f ↦ noop (finalization_already_started f)
    ]
    else noop (wrong_state c.state)

abbrev on_ready_to_merge : Option Claim → LifecycleAction
on_ready_to_merge none = noop no_claim
on_ready_to_merge (some c) =
    if is_in_progress c.state
    then if is_rebasing c.finalization_state
      then advance_finalization FinalizationState.ready_to_merge 0 (some finalize_lease_ms)
      else noop (wrong_finalization_state c.finalization_state)
    else noop (wrong_state c.state)

abbrev pub dispatch : EventKind → LifecycleEvent → Option Claim → ℕ → LifecycleAction
dispatch input_requested e c now = on_input_requested e now
dispatch run_started e c now = on_run_started e c now
dispatch heartbeat e c now = on_heartbeat e c now
dispatch phase_started e c now = on_phase_event e c now
dispatch phase_finished e c now = on_phase_event e c now
dispatch blocked e c now = on_phase_event e c now
dispatch need_input e c now = on_phase_event e c now
dispatch input_provided e c now = on_phase_event e c now
dispatch unblocked e c now = on_phase_event e c now
dispatch review_submitted e c now = on_phase_event e c now
dispatch finalize_rebase_started e c now = on_rebase_started c
dispatch input_response e c now = clear_input_state
dispatch run_finished e c now = on_finish e true c now
dispatch run_failed e c now = on_finish e false c now
dispatch work_complete e c now = on_work_complete c
dispatch ready_to_merge e c now = on_ready_to_merge c
dispatch (other_event name) e c now = noop (unhandled_event (other_event name))

unfoldable pub reduce_lifecycle_event : LifecycleEvent → Option Claim → ℕ → LifecycleAction
reduce_lifecycle_event event claim now = dispatch event.kind event claim now

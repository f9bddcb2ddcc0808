-- ===== src/Lifecycle/Order.antt =====
-- Which claims let an event through, and in which order finalization advances.
use orc_state.Base.{Bool, true, false, Option, none, some, ℕ, ◌≡◌, refl, arith, if◌then◌else◌}
use orc_state.Model.Claim.{Claim, FinalizationState, is_active, is_in_progress}
use orc_state.Lifecycle.{
  LifecycleEvent, LifecycleAction, EventKind, reduce_lifecycle_event, dispatch, set_input_state,
  advance_finalization, noop, clear_input_state, input_requested, run_started, heartbeat,
  phase_started, phase_finished, blocked, need_input, input_provided, unblocked, review_submitted,
  finalize_rebase_started, input_response, run_finished, run_failed, work_complete, other_event,
  ready_to_merge,
}

-- The actions that leave the progress of a claim as it is.
abbrev pub is_inert : LifecycleAction → Bool
is_inert (noop reason) = true
is_inert clear_input_state = true
is_inert (set_input_state at) = true
is_inert _ = false

dispatch_inactive :
    (kind : EventKind) (event : LifecycleEvent) (c : Claim) (now : ℕ)
    → is_active c.state ≡ false
    → is_inert (dispatch kind event (some c) now) ≡ true
dispatch_inactive input_requested event c now h = ground arith
dispatch_inactive run_started event c now h = ground arith
dispatch_inactive heartbeat event c now h = ground arith
dispatch_inactive phase_started event c now h = ground arith
dispatch_inactive phase_finished event c now h = ground arith
dispatch_inactive blocked event c now h = ground arith
dispatch_inactive need_input event c now h = ground arith
dispatch_inactive input_provided event c now h = ground arith
dispatch_inactive unblocked event c now h = ground arith
dispatch_inactive review_submitted event c now h = ground arith
dispatch_inactive finalize_rebase_started event c now h = ground arith
dispatch_inactive input_response event c now h = refl
dispatch_inactive run_finished event c now h = ground arith
dispatch_inactive run_failed event c now h = ground arith
dispatch_inactive work_complete event c now h = ground arith
dispatch_inactive ready_to_merge event c now h = ground arith
dispatch_inactive (other_event name) event c now h = refl

-- Of a claim that is neither claimed nor in progress no event starts, extends, advances or finishes
-- anything: the action is a noop, or concerns the input state alone.
inactive_claim_inert :
    (event : LifecycleEvent) (c : Claim) (now : ℕ)
    → is_active c.state ≡ false
    → is_inert (reduce_lifecycle_event event (some c) now) ≡ true
unfolding reduce_lifecycle_event
inactive_claim_inert event c now h = dispatch_inactive event.kind event c now h

-- The finalization state that an event of a worker leads to.
abbrev finalization_next : EventKind → Option FinalizationState → Option FinalizationState
finalization_next work_complete none = some FinalizationState.awaiting_finalize
finalization_next finalize_rebase_started (some FinalizationState.finalize_rebase_requested) =
    some FinalizationState.finalize_rebase_in_progress
finalization_next ready_to_merge (some FinalizationState.finalize_rebase_in_progress) =
    some FinalizationState.ready_to_merge
finalization_next _ _ = none

-- What the action sets the finalization state to, if it sets it.
abbrev pub advanced : LifecycleAction → Option FinalizationState
advanced (advance_finalization to retries lease) = some to
advanced _ = none

dispatch-advanced :
    (kind : EventKind) (event : LifecycleEvent) (c : Claim) (now : ℕ)
    → advanced (dispatch kind event (some c) now)
      ≡ (if is_in_progress c.state then finalization_next kind c.finalization_state else none)
dispatch-advanced work_complete event c now = ground arith
dispatch-advanced finalize_rebase_started event c now = ground arith
dispatch-advanced ready_to_merge event c now = ground arith
dispatch-advanced run_started event c now = ground arith
dispatch-advanced heartbeat event c now = ground arith
dispatch-advanced run_failed event c now = ground arith
dispatch-advanced _ event c now = ground arith

-- A finalization step is taken once: after it, the event that made it leads nowhere.
finalization_next_once :
    (kind : EventKind) (from : Option FinalizationState) (to : FinalizationState)
    → finalization_next kind from ≡ some to
    → finalization_next kind (some to) ≡ none
finalization_next_once kind from to h = ground arith

-- The finalization state that the reducer sets, if it sets one, is the successor that the event has
-- in the order `awaiting_finalize`; `finalize_rebase_requested`, `finalize_rebase_in_progress`;
-- `ready_to_merge`, and it sets one for a claim in progress alone.
reduce_lifecycle_event-advanced :
    (event : LifecycleEvent) (c : Claim) (now : ℕ)
    → advanced (reduce_lifecycle_event event (some c) now)
      ≡ (if is_in_progress c.state then finalization_next event.kind c.finalization_state else none)
unfolding reduce_lifecycle_event
reduce_lifecycle_event-advanced event c now = dispatch-advanced event.kind event c now

-- If an event has advanced the finalization of a claim to a state, an event of the same kind advances
-- no claim that stands in that state.
pub finalization_advances_once :
    (first again : LifecycleEvent) (before_it after_it : Claim) (now later : ℕ)
    (to : FinalizationState)
    → advanced (reduce_lifecycle_event first (some before_it) now) ≡ some to
    → again.kind ≡ first.kind
    → after_it.finalization_state ≡ some to
    → advanced (reduce_lifecycle_event again (some after_it) later) ≡ none
finalization_advances_once first again before_it after_it now later to h k f = ground (
  arith,
  reduce_lifecycle_event-advanced first before_it now,
  reduce_lifecycle_event-advanced again after_it later,
  finalization_next_once first.kind before_it.finalization_state to,
)

-- ===== src/Lifecycle/Times.antt =====
-- The times that the reducer hands to the coordinator.
use orc_state.Base.{some, ℕ, ◌≤◌, ◌≡◌, arith, max}
use orc_state.Base.Time.{iso}
use orc_state.Model.Claim.{Claim}
use orc_state.Lifecycle.{
  LifecycleEvent, authoritative_ts, coerce_event_ts, activity_floor, reduce_lifecycle_event, beat,
}

-- A time that is not after `now` unless the floor is, and not before the floor.
abbrev pub Within : ℕ → ℕ → ℕ → Type 0
Within floor now at = (floor ≤ at) × (at ≤ max now floor)

authoritative_ts-Within :
    (event floor now : ℕ) → Within floor now (authoritative_ts event (some (iso floor)) now)
unfolding authoritative_ts
authoritative_ts-Within event floor now = omega arith

-- If the last recorded activity of the claim is an instant, a heartbeat or phase event that the
-- reducer turns into a heartbeat is given an instant not before that activity, and not after the
-- coordinator's clock unless the activity is.
pub reduce_heartbeat-Within :
    (event : LifecycleEvent) (c : Claim) (now floor at lease : ℕ)
    → activity_floor c ≡ some (iso floor)
    → reduce_lifecycle_event event (some c) now ≡ beat at lease
    → Within floor now at
unfolding reduce_lifecycle_event
reduce_heartbeat-Within event c now floor at lease f h =
    ground (arith, authoritative_ts-Within (coerce_event_ts event.ts now) floor now)

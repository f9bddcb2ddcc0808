-- ===== src/Delivery/Phases.antt =====
-- The abstract life of a command, in phases that forget sessions, times and texts, and the edges of
-- the detailed rows that it allows.
use orc_state.Base.{Bool, true, false, ◌≡◌, ℕ, ◌+◌, ◌≤◌, ◌<◌, is_some, if◌then◌else◌, arith}
use orc_state.Delivery.Schema.{
  DurableCommand, CommandState, CommandEventName, command_queued, command_dispatching,
  command_send_started, command_sent, command_accepted, command_running, command_completed,
  command_failed, command_cancelled, command_outcome_unknown,
}

pub data Phase : Type 0 where
  waiting held offered sent accepted running uncertain closed : Phase

-- What may happen to a command, by whether it has side effects, with the event that is logged.
pub data Progress (effects : Bool) : Phase → Phase → CommandEventName → Type 0 where
  reserve : Progress effects waiting held command_dispatching
  offer : Progress effects held offered command_send_started
  deliver : Progress effects offered sent command_sent
  accept_offered : Progress effects offered accepted command_accepted
  accept_sent : Progress effects sent accepted command_accepted
  accept_uncertain : Progress effects uncertain accepted command_accepted
  run : Progress effects accepted running command_running
  complete_accepted : Progress effects accepted closed command_completed
  complete_running : Progress effects running closed command_completed
  fail_accepted : Progress effects accepted closed command_failed
  fail_running : Progress effects running closed command_failed
  give_back : Progress effects held waiting command_queued
  drop_waiting : Progress effects waiting closed command_failed
  drop_held : Progress effects held closed command_failed
  retry : effects ≡ false → Progress effects offered waiting command_queued
  drop_offered : effects ≡ false → Progress effects offered closed command_failed
  drop_sent : effects ≡ false → Progress effects sent closed command_failed
  lose_offered : effects ≡ true → Progress effects offered uncertain command_outcome_unknown
  lose_sent : effects ≡ true → Progress effects sent uncertain command_outcome_unknown
  lose_accepted : effects ≡ true → Progress effects accepted uncertain command_outcome_unknown
  lose_running : effects ≡ true → Progress effects running uncertain command_outcome_unknown
  resolve_completed : Progress effects uncertain closed command_completed
  resolve_failed : Progress effects uncertain closed command_failed
  resolve_cancelled : Progress effects uncertain closed command_cancelled

-- The phase of a row.
abbrev pub phase_of : CommandState → Bool → Phase
phase_of CommandState.queued started = waiting
phase_of CommandState.dispatching started = if started then offered else held
phase_of CommandState.sent started = sent
phase_of CommandState.accepted started = accepted
phase_of CommandState.running started = running
phase_of CommandState.completed started = closed
phase_of CommandState.failed started = closed
phase_of CommandState.cancelled started = closed
phase_of CommandState.outcome_unknown started = uncertain

abbrev pub phase : DurableCommand → Phase
phase c = phase_of c.state (is_some c.send_started_at)

-- The attempts that are counted, by phase: none is left over while the command waits, and one is
-- counted while it is dispatched.
abbrev pub Within : Phase → ℕ → ℕ → Type 0
Within waiting attempts limit = attempts < limit
Within held attempts limit = (1 ≤ attempts) × (attempts ≤ limit)
Within offered attempts limit = (1 ≤ attempts) × (attempts ≤ limit)
Within _ attempts limit = attempts ≤ limit

-- One step of a row.
pub record Edge (c d : DurableCommand) (name : CommandEventName) : Type 0 where
  pub progress : Progress c.side_effecting (phase c) (phase d) name
  pub command_id : d.command_id ≡ c.command_id
  pub run_id : d.run_id ≡ c.run_id
  pub idempotency_key : d.idempotency_key ≡ c.idempotency_key
  pub side_effecting : d.side_effecting ≡ c.side_effecting
  pub max_attempts : d.max_attempts ≡ c.max_attempts
  pub within :
      Within (phase c) c.attempt_count c.max_attempts
      → Within (phase d) d.attempt_count d.max_attempts

-- How many sends may still start.
abbrev pub sends_left : Phase → ℕ
sends_left waiting = 1
sends_left held = 1
sends_left _ = 0

abbrev pub starts : CommandEventName → ℕ
starts command_send_started = 1
starts _ = 0

pub Progress-sends_left :
    {p q : Phase} {name : CommandEventName}
    → Progress true p q name
    → starts name + sends_left q ≤ sends_left p
Progress-sends_left reserve = omega arith
Progress-sends_left offer = omega arith
Progress-sends_left deliver = omega arith
Progress-sends_left accept_offered = omega arith
Progress-sends_left accept_sent = omega arith
Progress-sends_left accept_uncertain = omega arith
Progress-sends_left run = omega arith
Progress-sends_left complete_accepted = omega arith
Progress-sends_left complete_running = omega arith
Progress-sends_left fail_accepted = omega arith
Progress-sends_left fail_running = omega arith
Progress-sends_left give_back = omega arith
Progress-sends_left drop_waiting = omega arith
Progress-sends_left drop_held = omega arith
Progress-sends_left (retry e) = absurd (ground arith)
Progress-sends_left (drop_offered e) = omega arith
Progress-sends_left (drop_sent e) = omega arith
Progress-sends_left (lose_offered e) = omega arith
Progress-sends_left (lose_sent e) = omega arith
Progress-sends_left (lose_accepted e) = omega arith
Progress-sends_left (lose_running e) = omega arith
Progress-sends_left resolve_completed = omega arith
Progress-sends_left resolve_failed = omega arith
Progress-sends_left resolve_cancelled = omega arith

-- ===== src/Delivery/Reconcile.antt =====
-- lib/commandDelivery.ts: reconcileCommands.
use orc_state.Base.{
  Bool, true, false, not, ◌&&◌, ◌||◌, List, [], ◌∷◌, Option, none, some, String, ℕ, ◌-◌, ◌==◌,
  filter_by, if◌then◌else◌, leb, Result, ok, ◌>>=◌,
}
use orc_state.Model.Claim.{is_active}
use orc_state.Delivery.Schema.{
  DurableCommand, CommandEvent, CommandState, Db, Session, Run, Fault, run_of, session_row,
  is_queued, is_dispatching, is_terminal, is_unknown, overdue, update_command, transition,
  command_queued, command_failed, command_outcome_unknown,
}
use orc_state.Delivery.Sending.{requeued}
use orc_state.Delivery.Acks.{is_unsent}

-- The states that `reconcileCommands` selects.
abbrev pub is_pending : CommandState → Bool
is_pending s = not (is_terminal s || is_unknown s)

abbrev has_exited : Option Session → Bool
has_exited none = true
has_exited (some s) = not (s.state == "running")

abbrev is_stale : ℕ → ℕ → Option ℕ → Bool
is_stale at stale_after_ms none = false
is_stale at stale_after_ms (some from) = leb stale_after_ms (at - from) && leb from at

-- What the loop finds out about a command.
pub record Finding : Type 0 where
  pub active_run : Bool
  pub timed_out : Bool
  pub stalled : Bool
  pub exited : Bool

abbrev pub finding : ℕ → ℕ → Run → DurableCommand → Db → Finding
finding at stale_after_ms owner command db = record {
  active_run = is_active owner.state;
  timed_out = overdue command.deadline_at at;
  stalled = is_dispatching command.state && is_stale at stale_after_ms command.dispatch_started_at;
  exited = has_exited (session_row db command.session_id) || not (is_active owner.state);
}

abbrev pub reason_of : Finding → String
reason_of f =
    if not f.active_run
    then "run ended"
    else if f.exited
    then "recipient session exited"
    else if f.timed_out
    then "deadline exceeded"
    else "dispatch interrupted"

module _ (valid : CommandEvent → Bool) (now at : ℕ) where
  unfoldable pub recover_command :
      Finding → DurableCommand → Db → Result Fault (DurableCommand × Db)
  unfolding transition update_command
  recover_command f command db = do
    let reason = reason_of f
    let fail = transition valid now command CommandState.failed command_failed (some reason) db
    let requeue =
        update_command valid now command.command_id (requeued at reason) command_queued
          (some reason) db
    let exhausted = leb command.max_attempts command.attempt_count
    if is_queued command.state || is_unsent command
        then (if f.exited || f.timed_out || exhausted then fail else requeue)
        else if command.side_effecting
        then transition valid now command CommandState.outcome_unknown command_outcome_unknown
            (some reason) db
        else if is_dispatching command.state && not f.exited && not f.timed_out && not exhausted
        then requeue
        else fail

  -- The loop over the commands that were selected: the changed commands, and the tables.
  unfoldable pub reconcile_each :
      ℕ → List DurableCommand → Db → Result Fault (List DurableCommand × Db)
  unfolding recover_command
  reconcile_each stale_after_ms [] db = ok ([], db)
  reconcile_each stale_after_ms (command ∷ commands) db = do
    owner ← run_of db command.run_id
    let f = finding at stale_after_ms owner command db
    if not (f.timed_out || f.stalled || f.exited)
        then reconcile_each stale_after_ms commands db
        else (do
          changed ← recover_command f command db
          rest ← reconcile_each stale_after_ms commands changed.1
          ok (changed.0 ∷ rest.0, rest.1))

  unfoldable pub reconcile_commands : ℕ → Db → Result Fault (List DurableCommand × Db)
  unfolding reconcile_each
  reconcile_commands stale_after_ms db =
      reconcile_each stale_after_ms (filter_by (λ c. is_pending c.state) db.commands) db

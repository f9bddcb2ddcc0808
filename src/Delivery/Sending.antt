-- ===== src/Delivery/Sending.antt =====
-- lib/commandDelivery.ts: a command is reserved, its send starts and ends, fails, or is put off.
use orc_state.Base.{
  Bool, true, not, ◌&&◌, ◌||◌, List, [], ◌∷◌, Option, none, some, String, ℕ, zero, suc, ◌+◌, ◌-◌,
  ◌*◌, ◌^◌, min, ◌==◌, if◌then◌else◌, opt_eq, is_some, ltb, leb, Result, ok, ◌>>=◌, ◌>>◌, throw_if,
}
use orc_state.Model.Claim.{is_active}
use orc_state.Delivery.Schema.{
  DurableCommand, CommandEvent, CommandState, Db, Fault, row, run_of, session_of, is_queued,
  is_dispatching, overdue, update_command, transition, not_reserved, run_no_longer_active,
  recipient_changed, command_queued, command_dispatching, command_send_started, command_sent,
  command_failed, command_outcome_unknown,
}

abbrev pub is_due : ℕ → DurableCommand → Bool
is_due at c = is_queued c.state && elim c.next_attempt_at [ none ↦ true | some t ↦ leb t at ]

-- ORDER BY created_at, rowid LIMIT 1, of the rows that are due.
abbrev pub earliest : Option DurableCommand → DurableCommand → Option DurableCommand
earliest none c = some c
earliest (some later) c = if ltb later.created_at c.created_at then some later else some c

abbrev pub first_due : ℕ → List DurableCommand → Option DurableCommand
first_due at [] = none
first_due at (c ∷ cs) = let rest = first_due at cs in if is_due at c then earliest rest c else rest

-- The assignments of the UPDATEs.
abbrev pub reserved : ℕ → DurableCommand → DurableCommand
reserved at c = record c {
  state = CommandState.dispatching;
  attempt_count = c.attempt_count + 1;
  dispatch_started_at = some at;
  send_started_at = none;
}

abbrev pub started : ℕ → DurableCommand → DurableCommand
started now c = record c { send_started_at = some now }

abbrev pub delivered : ℕ → DurableCommand → DurableCommand
delivered now c = record c { state = CommandState.sent; delivered_at = some now }

abbrev pub requeued : ℕ → String → DurableCommand → DurableCommand
requeued retry_at reason c = record c {
  state = CommandState.queued;
  next_attempt_at = some retry_at;
  last_error = some reason;
}

abbrev pub deferred : ℕ → String → DurableCommand → DurableCommand
deferred retry_at reason c = record c {
  state = CommandState.queued;
  attempt_count = c.attempt_count - 1;
  next_attempt_at = some retry_at;
  last_error = some reason;
}

-- `Math.min(1000 * 2 ** (attempt_count - 1), 30000)`; at no attempt the power is one half.
abbrev pub retry_delay : ℕ → ℕ
retry_delay zero = 500
retry_delay (suc n) = min (1000 * 2 ^ n) 30000

-- `BUSY_RETRY_MS`.
abbrev pub busy_retry_ms : ℕ
busy_retry_ms = 1000

-- What a send is checked for: the reservation, the run, and the session of the recipient.
abbrev pub check_send : DurableCommand → Db → Result Fault (Unit {0})
check_send command db = do
  throw_if (not (is_dispatching command.state) || is_some command.send_started_at) not_reserved
  owner ← run_of db command.run_id
  throw_if (not (is_active owner.state)) run_no_longer_active
  recipient ← session_of db command.session_id
  throw_if
      (not (opt_eq recipient.run_id (some command.run_id))
        || not (recipient.agent_id == command.recipient_id))
      recipient_changed

module _ (valid : CommandEvent → Bool) where
  abbrev pub reserve :
      ℕ → ℕ → Db → Option DurableCommand → Result Fault (Option DurableCommand × Db)
  reserve now at db none = ok (none, db)
  reserve now at db (some command) = do
    updated ←
        if overdue command.deadline_at at
        then transition valid now command CommandState.failed command_failed
            (some "deadline exceeded") db
        else update_command valid now command.command_id (reserved at) command_dispatching none db
    ok (some updated.0, updated.1)

  unfoldable pub reserve_command : ℕ → ℕ → Db → Result Fault (Option DurableCommand × Db)
  unfolding transition update_command
  reserve_command now at db = reserve now at db (first_due at db.commands)

  unfoldable pub mark_send_started : ℕ → String → Db → Result Fault (DurableCommand × Db)
  unfolding update_command
  mark_send_started now id db = do
    command ← row db id
    check_send command db
    update_command valid now id (started now) command_send_started none db

  unfoldable pub mark_sent : ℕ → String → Db → Result Fault (DurableCommand × Db)
  unfolding update_command
  mark_sent now id db = do
    command ← row db id
    if not (is_dispatching command.state) || not (is_some command.send_started_at)
        then ok (command, db)
        else update_command valid now id (delivered now) command_sent none db

  -- The dispatched command is lost, failed, or queued for another attempt.
  abbrev pub failed_send :
      ℕ → String → String → DurableCommand → Db → Result Fault (DurableCommand × Db)
  failed_send now id reason command db =
      if is_some command.send_started_at && command.side_effecting
      then transition valid now command CommandState.outcome_unknown command_outcome_unknown
          (some reason) db
      else if leb command.max_attempts command.attempt_count
      then transition valid now command CommandState.failed command_failed (some reason) db
      else update_command valid now id (requeued (now + retry_delay command.attempt_count) reason)
          command_queued (some reason) db

  unfoldable pub fail_transport : ℕ → String → String → Db → Result Fault (DurableCommand × Db)
  unfolding transition update_command
  fail_transport now id reason db = do
    command ← row db id
    if not (is_dispatching command.state)
        then ok (command, db)
        else failed_send now id reason command db

  unfoldable pub defer_command : ℕ → String → String → ℕ → Db → Result Fault (DurableCommand × Db)
  unfolding update_command
  defer_command now id reason retry_at db = do
    command ← row db id
    if not (is_dispatching command.state) || is_some command.send_started_at
        then ok (command, db)
        else update_command valid now id (deferred retry_at reason) command_queued (some reason) db

-- `isDeferred`.
abbrev pub is_deferred : DurableCommand → Bool
is_deferred c = is_queued c.state && opt_eq c.last_error (some "recipient busy")

-- ===== src/Delivery/Acks.antt =====
-- lib/commandDelivery.ts: what the recipient, the provider protocol and the operator report.
use orc_state.Base.{
  Bool, true, false, not, ◌&&◌, ◌||◌, Option, none, some, String, ℕ, ◌==◌, if◌then◌else◌, opt_eq,
  or_else, is_some, leb, Result, ok, ◌>>=◌, ◌>>◌, throw_if,
}
use orc_state.Delivery.Schema.{
  DurableCommand, CommandEvent, CommandEventName, CommandState, Db, Fault, row, session_of,
  is_queued, is_dispatching, is_terminal, is_unknown, update_command, transition,
  recipient_mismatch, wrong_recipient, wrong_session, master_required, cannot_acknowledge,
  outcome_not_unknown, reason_required, command_accepted, command_running, command_completed,
  command_failed, command_cancelled,
}

pub data AckState : Type 0 where
  accepted running completed failed : AckState

-- `ACK_ALLOWED`.
abbrev pub ack_allowed : AckState → CommandState → Bool
ack_allowed AckState.accepted CommandState.dispatching = true
ack_allowed AckState.accepted CommandState.sent = true
ack_allowed AckState.accepted CommandState.outcome_unknown = true
ack_allowed AckState.running CommandState.accepted = true
ack_allowed AckState.completed CommandState.accepted = true
ack_allowed AckState.completed CommandState.running = true
ack_allowed AckState.failed CommandState.accepted = true
ack_allowed AckState.failed CommandState.running = true
ack_allowed _ _ = false

abbrev pub of_ack : AckState → CommandState
of_ack AckState.accepted = CommandState.accepted
of_ack AckState.running = CommandState.running
of_ack AckState.completed = CommandState.completed
of_ack AckState.failed = CommandState.failed

-- `command_${state}`.
abbrev pub ack_event : AckState → CommandEventName
ack_event AckState.accepted = command_accepted
ack_event AckState.running = command_running
ack_event AckState.completed = command_completed
ack_event AckState.failed = command_failed

-- `ACK_RANK`, with `?? 0`.
abbrev pub ack_rank : CommandState → ℕ
ack_rank CommandState.accepted = 1
ack_rank CommandState.running = 2
ack_rank CommandState.completed = 3
ack_rank CommandState.failed = 3
ack_rank CommandState.cancelled = 3
ack_rank _ = 0

abbrev pub is_unsent : DurableCommand → Bool
is_unsent c = is_dispatching c.state && not (is_some c.send_started_at)

abbrev pub is_accepted : CommandState → Bool
is_accepted CommandState.accepted = true
is_accepted _ = false

abbrev pub is_running : CommandState → Bool
is_running CommandState.running = true
is_running _ = false

abbrev pub acknowledged : ℕ → AckState → Option String → DurableCommand → DurableCommand
acknowledged now state reason c = record c {
  state = of_ack state;
  acknowledged_at = or_else c.acknowledged_at (some now);
  terminal_at = if is_terminal (of_ack state) then some now else none;
  last_error = or_else reason c.last_error;
}

pub data Outcome : Type 0 where
  completed failed cancelled : Outcome

abbrev pub of_outcome : Outcome → CommandState
of_outcome Outcome.completed = CommandState.completed
of_outcome Outcome.failed = CommandState.failed
of_outcome Outcome.cancelled = CommandState.cancelled

abbrev pub outcome_event : Outcome → CommandEventName
outcome_event Outcome.completed = command_completed
outcome_event Outcome.failed = command_failed
outcome_event Outcome.cancelled = command_cancelled

-- Only the session that the command was sent to may acknowledge it.
abbrev pub check_recipient : DurableCommand → String → String → Db → Result Fault (Unit {0})
check_recipient command agent_id session_id db = do
  recipient ← session_of db (some session_id)
  throw_if (not (recipient.agent_id == agent_id)) recipient_mismatch
  throw_if
      (not (opt_eq (some recipient.session_id) command.session_id)
        || not (opt_eq recipient.run_id (some command.run_id))
        || not (recipient.agent_id == command.recipient_id))
      wrong_recipient

-- The operator's session is the master's, and a reason is given.
abbrev pub check_master : (String → Bool) → String → String → String → Db → Result Fault (Unit {0})
check_master blank agent_id session_id reason db = do
  throw_if (blank reason) reason_required
  throw_if (not (agent_id == "master")) master_required
  master ← session_of db (some session_id)
  throw_if (not (master.agent_id == agent_id)) master_required

module _ (valid : CommandEvent → Bool) where
  unfoldable pub apply_ack :
      ℕ → DurableCommand → AckState → Option String → Db → Result Fault (DurableCommand × Db)
  unfolding update_command
  apply_ack now command state reason db = do
    throw_if (not (ack_allowed state command.state) || is_unsent command) cannot_acknowledge
    update_command valid now command.command_id (acknowledged now state reason) (ack_event state)
        reason db

  -- The principal's agent and session.
  unfoldable pub acknowledge_command :
      ℕ → String → String → String → AckState → Db → Result Fault (DurableCommand × Db)
  unfolding apply_ack
  acknowledge_command now id agent_id session_id state db = do
    command ← row db id
    check_recipient command agent_id session_id db
    apply_ack now command state none db

  -- `if (command.state !== 'accepted' && command.state !== 'running')`.
  unfoldable pub accept_first : ℕ → DurableCommand → Db → Result Fault (DurableCommand × Db)
  unfolding apply_ack
  accept_first now command db =
      if is_accepted command.state || is_running command.state
      then ok (command, db)
      else apply_ack now command AckState.accepted none db

  -- What is left when the command has been accepted.
  unfoldable pub then_reach :
      ℕ → DurableCommand → AckState → Option String → Db → Result Fault (DurableCommand × Db)
  unfolding apply_ack
  then_reach now command AckState.accepted reason db = ok (command, db)
  then_reach now command AckState.running reason db =
      if is_running command.state
      then ok (command, db)
      else apply_ack now command AckState.running none db
  then_reach now command AckState.completed reason db =
      apply_ack now command AckState.completed reason db
  then_reach now command AckState.failed reason db = apply_ack now command AckState.failed reason db

  unfoldable pub acknowledge_from_runtime :
      ℕ → String → String → AckState → Option String → Db → Result Fault (DurableCommand × Db)
  unfolding accept_first then_reach
  acknowledge_from_runtime now id session_id state reason db = do
    command ← row db id
    throw_if (not (opt_eq command.session_id (some session_id))) wrong_session
    throw_if (is_queued command.state || is_unsent command) cannot_acknowledge
    if leb (ack_rank (of_ack state)) (ack_rank command.state)
        then ok (command, db)
        else (accept_first now command db >>= λ moved. then_reach now moved.0 state reason moved.1)

  -- `blank` is `!reason.trim()`.
  unfoldable pub resolve_unknown_command :
      (String → Bool)
      → ℕ
      → String
      → String
      → String
      → Outcome
      → String
      → Db
      → Result Fault (DurableCommand × Db)
  unfolding transition
  resolve_unknown_command blank now id agent_id session_id outcome reason db = do
    check_master blank agent_id session_id reason db
    command ← row db id
    throw_if (not (is_unknown command.state)) outcome_not_unknown
    transition valid now command (of_outcome outcome) (outcome_event outcome) (some reason) db

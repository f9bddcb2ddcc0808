-- ===== src/Delivery/Schema.antt =====
-- lib/commandDelivery.ts: the row of a command, the tables of events.db that its operations read and
-- write, and the write that they share: an UPDATE of one command, the row read again, and its event.
-- Columns that the program's own clock writes are instants; a deadline is given by the caller and may
-- be a text that Date does not read. Which events the validator accepts is the parameter `valid`.
use orc_state.Base.{
  Bool, true, false, not, ◌||◌, List, [], ◌∷◌, ◌++◌, Option, none, some, String, ℕ, ◌==◌, find,
  if◌then◌else◌, leb, Result, ok, err, ◌>>=◌, ◌>>◌, throw_if, map, filter_by, any_of,
}
use orc_state.Base.Time.{Stamp, iso, junk}
use orc_state.Model.Claim.{ClaimState}
use orc_state.Store.Schema.{update_where}

pub data CommandState : Type 0 where
  queued dispatching sent accepted running : CommandState
  completed failed cancelled outcome_unknown : CommandState

pub record DurableCommand : Type 0 where
  pub command_id : String
  pub run_id : String
  pub session_id : Option String
  pub actor_session_id : Option String
  pub actor_id : String
  pub recipient_id : String
  pub idempotency_key : String
  pub kind : String
  pub payload : String
  pub state : CommandState
  pub side_effecting : Bool
  pub attempt_count : ℕ
  pub max_attempts : ℕ
  pub next_attempt_at : Option ℕ
  pub deadline_at : Option Stamp
  pub dispatch_started_at : Option ℕ
  pub send_started_at : Option ℕ
  pub created_at : ℕ
  pub delivered_at : Option ℕ
  pub acknowledged_at : Option ℕ
  pub terminal_at : Option ℕ
  pub last_error : Option String

pub record Session : Type 0 where
  pub session_id : String
  pub agent_id : String
  pub run_id : Option String
  pub state : String

pub record Run : Type 0 where
  pub run_id : String
  pub task_ref : String
  pub agent_id : Option String
  pub state : ClaimState

pub data CommandEventName : Type 0 where
  command_queued command_dispatching command_send_started command_sent : CommandEventName
  command_accepted command_running command_completed command_failed : CommandEventName
  command_cancelled command_outcome_unknown : CommandEventName

pub record CommandEvent : Type 0 where
  pub ts : ℕ
  pub name : CommandEventName
  pub run_id : String
  pub task_ref : String
  pub agent_id : String
  pub command_id : String
  pub state : CommandState
  pub attempt_count : ℕ
  pub reason : Option String

pub record Db : Type 0 where
  pub commands : List DurableCommand
  pub runs : List Run
  pub sessions : List Session
  pub events : List CommandEvent

-- What the operations throw, by the class of lib/domainErrors.ts and the message; `event_invalid` is
-- the validator's refusal, `duplicate_command` that of the primary key.
pub data Fault : Type 0 where
  command_not_found run_not_found : Fault
  key_and_kind_required max_attempts_not_positive invalid_deadline : Fault
  payload_not_serializable reason_required : Fault
  session_not_running actor_mismatch actor_not_scoped recipient_not_scoped : Fault
  recipient_mismatch wrong_recipient wrong_session master_required : Fault
  run_not_active key_conflict not_reserved run_no_longer_active recipient_changed : Fault
  cannot_acknowledge outcome_not_unknown : Fault
  event_invalid duplicate_command : Fault

-- `TERMINAL`.
abbrev pub is_terminal : CommandState → Bool
is_terminal CommandState.completed = true
is_terminal CommandState.failed = true
is_terminal CommandState.cancelled = true
is_terminal _ = false

-- The tests of one state.
abbrev pub is_queued : CommandState → Bool
is_queued CommandState.queued = true
is_queued _ = false

abbrev pub is_dispatching : CommandState → Bool
is_dispatching CommandState.dispatching = true
is_dispatching _ = false

abbrev pub is_unknown : CommandState → Bool
is_unknown CommandState.outcome_unknown = true
is_unknown _ = false

abbrev pub has_command_id : String → DurableCommand → Bool
has_command_id id c = c.command_id == id

abbrev pub command_of : Db → String → Option DurableCommand
command_of db id = find (has_command_id id) db.commands

abbrev found {ℓ} : {A : Type ℓ} → Fault → Option A → Result Fault A
found fault none = err fault
found fault (some a) = ok a

abbrev pub row : Db → String → Result Fault DurableCommand
row db id = found command_not_found (command_of db id)

abbrev pub run_of : Db → String → Result Fault Run
run_of db run_id = found run_not_found (find (λ (r : Run). r.run_id == run_id) db.runs)

-- A command whose session was deleted has none, and no row has that id.
abbrev pub session_row : Db → Option String → Option Session
session_row db none = none
session_row db (some id) = find (λ (s : Session). s.session_id == id) db.sessions

abbrev pub session_of : Db → Option String → Result Fault Session
session_of db id = do
  value ← found session_not_running (session_row db id)
  throw_if (not (value.state == "running")) session_not_running
  ok value

-- `deadline_at && deadline_at <= at`: the empty text is false. The source compares texts; a deadline in the
-- notation of toISOString, as `at` has it, is compared like its instant, and so it is here for all.
abbrev pub overdue : Option Stamp → ℕ → Bool
overdue none at = false
overdue (some (iso n)) at = leb n at
overdue (some (junk s)) at = false

-- `REFERENCES runs ON DELETE CASCADE`: a command goes with its run.
abbrev pub has_run : List Run → DurableCommand → Bool
has_run runs c = any_of (λ (r : Run). r.run_id == c.run_id) runs

abbrev pub still_session : List Session → Option String → Option String
still_session sessions none = none
still_session sessions (some id) =
    if any_of (λ (s : Session). s.session_id == id) sessions then some id else none

-- `REFERENCES sessions ON DELETE SET NULL`, of both columns.
abbrev pub unlink : List Session → DurableCommand → DurableCommand
unlink sessions c = record c {
  session_id = still_session sessions c.session_id;
  actor_session_id = still_session sessions c.actor_session_id;
}

-- A transaction elsewhere that leaves these runs and sessions.
abbrev pub replace_parents : List Run → List Session → Db → Db
replace_parents runs sessions db = record db {
  commands = map (unlink sessions) (filter_by (has_run runs) db.commands);
  runs = runs;
  sessions = sessions;
}

abbrev pub event_of : ℕ → Run → DurableCommand → CommandEventName → Option String → CommandEvent
event_of now owner command name reason = record {
  ts = now;
  name = name;
  run_id = command.run_id;
  task_ref = owner.task_ref;
  agent_id = command.recipient_id;
  command_id = command.command_id;
  state = command.state;
  attempt_count = command.attempt_count;
  reason = reason;
}

-- The assignments of `transition`.
abbrev pub moved_to : ℕ → CommandState → Option String → DurableCommand → DurableCommand
moved_to now state reason c = record c {
  state = state;
  last_error = reason;
  terminal_at = if is_terminal state || is_unknown state then some now else none;
}

module _ (valid : CommandEvent → Bool) where
  -- `event`.
  unfoldable pub append_event :
      ℕ → DurableCommand → CommandEventName → Option String → Db → Result Fault Db
  append_event now command name reason db = do
    owner ← run_of db command.run_id
    throw_if (not (valid (event_of now owner command name reason))) event_invalid
    ok (record db { events = db.events ++ event_of now owner command name reason ∷ [] })

  -- The UPDATE of one command, `row` again, and `event`.
  unfoldable pub update_command :
      ℕ
      → String
      → (DurableCommand → DurableCommand)
      → CommandEventName
      → Option String
      → Db
      → Result Fault (DurableCommand × Db)
  unfolding append_event
  update_command now id set name reason db = do
    let written = record db { commands = update_where (has_command_id id) set db.commands }
    updated ← row written id
    db' ← append_event now updated name reason written
    ok (updated, db')

  unfoldable pub transition :
      ℕ
      → DurableCommand
      → CommandState
      → CommandEventName
      → Option String
      → Db
      → Result Fault (DurableCommand × Db)
  unfolding update_command
  transition now command state name reason db =
      update_command now command.command_id (moved_to now state reason) name reason db

-- ===== src/Delivery/Queue.antt =====
-- lib/commandDelivery.ts: enqueueCommand and getCommand.
use orc_state.Base.{
  Bool, true, false, not, ◌&&◌, ◌||◌, [], ◌∷◌, ◌++◌, Option, none, some, String, ℕ, ◌==◌, find,
  any_of, if◌then◌else◌, or_default, opt_eq, ltb, nat_eq, Result, ok, err, ◌>>=◌, ◌>>◌, throw_if,
}
use orc_state.Base.Time.{Stamp, iso, junk, is_valid, stamp_truthy}
use orc_state.Model.Claim.{is_active}
use orc_state.Delivery.Schema.{
  DurableCommand, Session, Run, CommandEvent, Db, Fault, row, run_of, session_of, has_command_id,
  append_event, key_and_kind_required, max_attempts_not_positive, invalid_deadline,
  payload_not_serializable, actor_mismatch, actor_not_scoped, recipient_not_scoped, run_not_active,
  key_conflict, duplicate_command, CommandState, command_queued,
}

-- `payload` is `JSON.stringify` of the payload, `none` for what has no JSON text. `maxAttempts` is an
-- integer that is not negative.
pub record EnqueueCommand : Type 0 where
  pub run_id : String
  pub recipient_session_id : String
  pub idempotency_key : String
  pub kind : String
  pub payload : Option String
  pub side_effecting : Option Bool
  pub max_attempts : Option ℕ
  pub deadline_at : Option Stamp

pub data CommandPrincipal : Type 0 where
  coordinator : CommandPrincipal
  principal : String → String → CommandPrincipal

abbrev bad_deadline : Option Stamp → Bool
bad_deadline none = false
bad_deadline (some t) = stamp_truthy t && not (is_valid t)

abbrev pub same_bool : Bool → Bool → Bool
same_bool true b = b
same_bool false b = not b

abbrev pub same_stamp : Stamp → Stamp → Bool
same_stamp (iso a) (iso b) = nat_eq a b
same_stamp (junk a) (junk b) = a == b
same_stamp _ _ = false

abbrev pub same_deadline : Option Stamp → Option Stamp → Bool
same_deadline none none = true
same_deadline (some a) (some b) = same_stamp a b
same_deadline _ _ = false

-- The session and the agent in whose name the command is written.
pub record Actor : Type 0 where
  pub session_id : Option String
  pub agent_id : String

abbrev pub actor_of : CommandPrincipal → EnqueueCommand → Run → Db → Result Fault Actor
actor_of coordinator input owner db = ok (record { session_id = none; agent_id = "coordinator" })
actor_of (principal agent_id session_id) input owner db = do
  actor ← session_of db (some session_id)
  throw_if (not (actor.agent_id == agent_id)) actor_mismatch
  throw_if
      (not (actor.agent_id == "master")
        && (not (opt_eq (some actor.agent_id) owner.agent_id)
            || not (opt_eq actor.run_id (some input.run_id))))
      actor_not_scoped
  ok (record { session_id = some actor.session_id; agent_id = actor.agent_id })

abbrev pub has_key : EnqueueCommand → DurableCommand → Bool
has_key input c = c.run_id == input.run_id && c.idempotency_key == input.idempotency_key

-- The command that stands under the key is the one that is asked for.
abbrev pub is_repeat : EnqueueCommand → String → Actor → Session → DurableCommand → Bool
is_repeat input payload actor recipient existing =
    opt_eq existing.actor_session_id actor.session_id
    && opt_eq existing.session_id (some recipient.session_id)
    && existing.kind == input.kind
    && existing.payload == payload
    && same_bool existing.side_effecting (or_default input.side_effecting true)
    && nat_eq existing.max_attempts (or_default input.max_attempts 3)
    && same_deadline existing.deadline_at input.deadline_at

abbrev pub new_command : ℕ → String → EnqueueCommand → String → Actor → Session → DurableCommand
new_command now id input payload actor recipient = record {
  command_id = id;
  run_id = input.run_id;
  session_id = some recipient.session_id;
  actor_session_id = actor.session_id;
  actor_id = actor.agent_id;
  recipient_id = recipient.agent_id;
  idempotency_key = input.idempotency_key;
  kind = input.kind;
  payload = payload;
  state = CommandState.queued;
  side_effecting = or_default input.side_effecting true;
  attempt_count = 0;
  max_attempts = or_default input.max_attempts 3;
  next_attempt_at = none;
  deadline_at = input.deadline_at;
  dispatch_started_at = none;
  send_started_at = none;
  created_at = now;
  delivered_at = none;
  acknowledged_at = none;
  terminal_at = none;
  last_error = none;
}

abbrev serialized : Option String → Result Fault String
serialized none = err payload_not_serializable
serialized (some text) = ok text

-- The checks of the input, of the run, of the caller and of the recipient.
abbrev pub check_input : EnqueueCommand → Result Fault String
check_input input = do
  throw_if (input.idempotency_key == "" || input.kind == "") key_and_kind_required
  throw_if (ltb (or_default input.max_attempts 3) 1) max_attempts_not_positive
  throw_if (bad_deadline input.deadline_at) invalid_deadline
  serialized input.payload

abbrev pub check_enqueue :
    CommandPrincipal → EnqueueCommand → Db → Result Fault (String × (Actor × Session))
check_enqueue caller input db = do
  payload ← check_input input
  owner ← run_of db input.run_id
  throw_if (not (is_active owner.state)) run_not_active
  actor ← actor_of caller input owner db
  recipient ← session_of db (some input.recipient_session_id)
  throw_if
      (not (opt_eq recipient.run_id (some input.run_id))
        || not (opt_eq (some recipient.agent_id) owner.agent_id))
      recipient_not_scoped
  ok (payload, (actor, recipient))

module _ (valid : CommandEvent → Bool) where
  -- The INSERT and its event; the primary key refuses an id that is taken.
  unfoldable pub insert_command : ℕ → DurableCommand → Db → Result Fault (DurableCommand × Db)
  unfolding append_event
  insert_command now command db = do
    throw_if (any_of (has_command_id command.command_id) db.commands) duplicate_command
    db' ←
        append_event valid now command command_queued none
          (record db { commands = db.commands ++ command ∷ [] })
    ok (command, db')

  abbrev pub repeat_or_insert :
      ℕ
      → EnqueueCommand
      → String
      → Actor
      → Session
      → String
      → Db
      → Option DurableCommand
      → Result Fault (DurableCommand × Db)
  repeat_or_insert now input payload actor recipient id db none =
      insert_command now (new_command now id input payload actor recipient) db
  repeat_or_insert now input payload actor recipient id db (some existing) =
      if is_repeat input payload actor recipient existing
      then ok (existing, db)
      else err key_conflict

  -- `id` is the identity that `randomUUID` gives.
  unfoldable pub enqueue_command :
      ℕ → String → CommandPrincipal → EnqueueCommand → Db → Result Fault (DurableCommand × Db)
  unfolding insert_command
  enqueue_command now id caller input db = do
    asked ← check_enqueue caller input db
    repeat_or_insert now input asked.0 asked.1.0 asked.1.1 id db (find (has_key input) db.commands)

-- `getCommand`.
unfoldable pub get_command : Db → String → Result Fault DurableCommand
get_command db id = row db id

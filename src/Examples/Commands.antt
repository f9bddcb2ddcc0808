-- ===== src/Examples/Commands.antt =====
-- lib/commandDelivery.ts on one run with one session, and a command with side effects that is queued,
-- reserved, sent and accepted; the validator accepts every event.
use orc_state.Base.{
  Bool, zero, suc, ◌+◌, true, false, ℕ, List, [], ◌∷◌, ◌++◌, Option, none, some, String, ◌≡◌, ◌≤◌,
  ◌<◌, ◌⊎◌, refl, arith, Result, ok, err,
}
use orc_state.Model.Claim.{ClaimState}
use orc_state.Delivery.Schema.{
  DurableCommand, CommandState, CommandEvent, CommandEventName, Db, Run, Session, Fault, command_of,
  command_queued, is_queued, replace_parents, command_accepted, command_completed,
}
use orc_state.Delivery.Queue.{EnqueueCommand, coordinator, enqueue_command}
use orc_state.Delivery.Sending.{reserve_command, mark_send_started, mark_sent}
use orc_state.Delivery.Acks.{AckState, acknowledge_from_runtime}
use orc_state.Delivery.Phases.{phase, waiting}
use orc_state.Delivery.Life.{Life, count_starts}
use orc_state.Delivery.History.{names_of}
use orc_state.Delivery.Reach.{
  CommandReach, start, next, enqueue, reserve, send_started, sent, proved, elsewhere,
  CommandReach-Life, CommandReach-sent_once, CommandReach-attempts,
}
use orc_state.Delivery.Closed.{Kept, CommandStep-ended}
use orc_state.Delivery.Repeat.{enqueue_command_again}
use orc_state.Delivery.Frames.{acknowledge_from_runtime_total}
use orc_state.Delivery.Dispatcher.{Turn, fulfilled, tick}
use orc_state.Delivery.Ending.{Ended, Interference, WithinWindow, tick_ends}
use orc_state.Delivery.Ticks.{count_due}
use orc_state.Delivery.Rounds.{Arrive}

abbrev the_run : Run
the_run = record {
  run_id = "run1";
  task_ref = "a";
  agent_id = some "alice";
  state = ClaimState.in_progress;
}

abbrev the_session : Session
the_session = record {
  session_id = "s1";
  agent_id = "alice";
  run_id = some "run1";
  state = "running";
}

abbrev no_commands : Db
no_commands = record {
  commands = [];
  runs = the_run ∷ [];
  sessions = the_session ∷ [];
  events = [];
}

abbrev asked : EnqueueCommand
asked = record {
  run_id = "run1";
  recipient_session_id = "s1";
  idempotency_key = "key";
  kind = "prompt";
  payload = some "{}";
  side_effecting = none;
  max_attempts = none;
  deadline_at = none;
}

abbrev accepts : CommandEvent → Bool
accepts event = true

abbrev not_blank : String → Bool
not_blank reason = false

abbrev written : Result Fault (DurableCommand × Db) → DurableCommand × Db
written (ok result) = result
written (err fault) = (
  record {
    command_id = "";
    run_id = "";
    session_id = none;
    actor_session_id = none;
    actor_id = "";
    recipient_id = "";
    idempotency_key = "";
    kind = "";
    payload = "";
    state = CommandState.failed;
    side_effecting = false;
    attempt_count = 0;
    max_attempts = 0;
    next_attempt_at = none;
    deadline_at = none;
    dispatch_started_at = none;
    send_started_at = none;
    created_at = 0;
    delivered_at = none;
    acknowledged_at = none;
    terminal_at = none;
    last_error = none;
  },
  no_commands,
)

abbrev taken : Result Fault (Option DurableCommand × Db) → Option DurableCommand × Db
taken (ok result) = result
taken (err fault) = (none, no_commands)

abbrev queued : DurableCommand × Db
unfolding enqueue_command
queued = written (enqueue_command accepts 10 "cmd-1" coordinator asked no_commands)

abbrev held : Option DurableCommand × Db
unfolding reserve_command
held = taken (reserve_command accepts 20 20 queued.1)

abbrev offered : DurableCommand × Db
unfolding mark_send_started
offered = written (mark_send_started accepts 30 "cmd-1" held.1)

abbrev delivered : DurableCommand × Db
unfolding mark_sent
delivered = written (mark_sent accepts 40 "cmd-1" offered.1)

-- The frame of the end comes first.
abbrev ended : DurableCommand × Db
unfolding acknowledge_from_runtime
ended =
    written (acknowledge_from_runtime accepts 50 "cmd-1" "s1" AckState.completed none delivered.1)

abbrev reached_delivered : CommandReach accepts not_blank delivered.1
unfolding enqueue_command reserve_command mark_send_started mark_sent
reached_delivered =
    next
      (next
        (next
          (next (start (the_run ∷ []) (the_session ∷ []))
            (enqueue 10 "cmd-1" coordinator asked queued.0 refl refl))
          (reserve 20 20 held.0 refl))
        (send_started 30 "cmd-1" offered.0 refl))
      (sent 40 "cmd-1" delivered.0 refl)

CommandReach-Life_example :
    (names : List CommandEventName) × ((names_of "cmd-1" delivered.1.events
        ≡ command_queued ∷ names)
      × Life true (phase delivered.0) waiting names)
unfolding delivered offered held queued
CommandReach-Life_example =
    CommandReach-Life accepts not_blank reached_delivered "cmd-1" {c = delivered.0} refl

CommandReach-sent_once_example : count_starts (names_of "cmd-1" delivered.1.events) ≤ 1
unfolding delivered offered held queued
CommandReach-sent_once_example =
    CommandReach-sent_once accepts not_blank reached_delivered "cmd-1" {c = delivered.0} refl refl

CommandReach-attempts_example :
    (delivered.0.attempt_count ≤ delivered.0.max_attempts)
    × (is_queued delivered.0.state ≡ true → delivered.0.attempt_count < delivered.0.max_attempts)
unfolding delivered offered held queued
CommandReach-attempts_example =
    CommandReach-attempts accepts not_blank reached_delivered "cmd-1" {c = delivered.0} refl

acknowledge_from_runtime_total_example :
    (out : DurableCommand) × ((db' : Db) × ((acknowledge_from_runtime accepts 50 "cmd-1" "s1"
            AckState.completed none delivered.1
          ≡ ok (out, db'))
        × ((out.state ≡ CommandState.completed)
            × ((command_of db' "cmd-1" ≡ some out)
                × (names_of "cmd-1" db'.events
                    ≡ names_of "cmd-1" delivered.1.events
                      ++ command_accepted ∷ command_completed ∷ [])))))
unfolding delivered offered held queued
acknowledge_from_runtime_total_example =
    acknowledge_from_runtime_total accepts 50 the_run "cmd-1" "s1" AckState.completed none
      delivered.1 {c = delivered.0} refl refl refl refl refl (λ e h. refl)

abbrev reached_ended : CommandReach accepts not_blank ended.1
unfolding acknowledge_from_runtime ended delivered offered held queued
reached_ended = next reached_delivered (proved 50 "cmd-1" "s1" AckState.completed none ended.0 refl)

-- The session ends.
abbrev session_gone : Db
session_gone = replace_parents (the_run ∷ []) [] ended.1

CommandStep-ended_example :
    (command_of session_gone "cmd-1" ≡ some ended.0)
    ⊎ ((session_gone.events ≡ ended.1.events)
        × ((session_gone ≡ replace_parents session_gone.runs session_gone.sessions ended.1)
            × Kept "cmd-1" ended.0 session_gone))
unfolding ended delivered offered held queued
CommandStep-ended_example =
    CommandStep-ended "cmd-1" {c = ended.0} refl accepts not_blank reached_ended
      (elsewhere (the_run ∷ []) [] refl) refl

enqueue_command_again_example :
    enqueue_command accepts 90 "cmd-2" coordinator asked queued.1 ≡ ok (queued.0, queued.1)
unfolding enqueue_command queued
enqueue_command_again_example =
    enqueue_command_again accepts coordinator asked 10 90 "cmd-1" "cmd-2" no_commands queued.1
      queued.0 refl

abbrev fault_text : Fault → String
fault_text fault = "fault"

abbrev quiet : Turn
quiet = record {
  at = 100;
  later = 110;
  is_busy = false;
  is_alive = fulfilled true;
  send = fulfilled tt;
  while_alive = λ db. db;
  while_sending = λ db. db;
}

-- While the first command is sent, another one is queued.
abbrev add_command : Db → Db
unfolding queued
add_command db = record db {
  commands =
      db.commands ++ record queued.0 { command_id = "cmd-2"; idempotency_key = "key-2" } ∷ [];
}

abbrev turn : ℕ → Turn
turn zero = record quiet { while_sending = add_command }
turn (suc round) = quiet

abbrev coming : ℕ → ℕ
coming zero = 1
coming (suc round) = 0

count_due-snoc :
    (until : ℕ) (cs : List DurableCommand) (c : DurableCommand)
    → count_due until (cs ++ c ∷ []) ≤ count_due until cs + 1
count_due-snoc until [] c = ground arith
count_due-snoc until (x ∷ xs) c = ground (arith, count_due-snoc until xs c)

window : WithinWindow turn 100
window zero = (omega arith, omega arith)
window (suc round) = (omega arith, omega arith)

others_alive : (round : ℕ) → Arrive 100 0 (turn round).while_alive
others_alive zero db = omega arith
others_alive (suc round) db = omega arith

others_sending : (round : ℕ) → Arrive 100 (coming round) (turn round).while_sending
unfolding add_command
others_sending zero db =
    count_due-snoc 100 db.commands
      (record queued.0 { command_id = "cmd-2"; idempotency_key = "key-2" })
others_sending (suc round) db = omega arith

others_total : (round : ℕ) → 0 + coming round + coming (suc round) ≤ coming round
others_total zero = omega arith
others_total (suc round) = omega arith

abbrev others : Interference turn 100 coming
others = record {
  first = λ round. 0;
  more = coming;
  alive = others_alive;
  sending = others_sending;
  total = others_total;
}

tick_ends_example :
    ((false ≡ true)
      × (tick accepts fault_text false turn 3 100 30000 queued.1 ≡ ok (some queued.1)))
    ⊎ Ended turn (tick accepts fault_text false turn 3 100 30000 queued.1)
unfolding queued
tick_ends_example =
    tick_ends accepts fault_text turn 100 window coming others false 3 100 30000 queued.1 (refl, tt)
      (omega arith)

-- ===== src/Delivery/Dispatcher.antt =====
-- lib/commandDelivery.ts: CommandDispatcher. What the transport answers and what the clock reads in a
-- round of the loop is a `Turn`; `turns` gives those of all rounds, and `message` the text of a fault.
-- `busy` is the field of the dispatcher. The loop runs on fuel, one unit for a round. While a promise is
-- awaited, other operations run: `while_alive` and `while_sending` are what they make of the tables.
use orc_state.Base.{
  Bool, true, false, Option, none, some, String, ℕ, zero, suc, ◌+◌, if◌then◌else◌, Result, ok, err,
  ◌>>=◌,
}
use orc_state.Delivery.Schema.{DurableCommand, CommandEvent, Db, Fault, is_dispatching}
use orc_state.Delivery.Sending.{
  reserve_command, mark_send_started, mark_sent, fail_transport, defer_command, busy_retry_ms,
}
use orc_state.Delivery.Reconcile.{reconcile_commands}

-- A promise that is fulfilled, or rejected with a message (a timeout included).
pub data Answer {ℓ} (A : Type ℓ) : Type ℓ where
  fulfilled : A → Answer A
  rejected : String → Answer A

-- A transport without `isAlive` answers `true`, one without `isBusy` is not busy.
pub record Turn : Type 0 where
  pub at : ℕ
  pub later : ℕ
  pub is_busy : Bool
  pub is_alive : Answer Bool
  pub send : Answer (Unit {0})
  pub while_alive : Db → Db
  pub while_sending : Db → Db

-- The tables when a block ends, with the message of what it threw.
pub record Attempt : Type 0 where
  pub db : Db
  pub thrown : Option String

module _ (valid : CommandEvent → Bool) (message : Fault → String) where
  abbrev pub attempt_of : Db → Result Fault (DurableCommand × Db) → Attempt
  attempt_of db (err fault) = record { db = db; thrown = some (message fault) }
  attempt_of db (ok written) = record { db = written.1; thrown = none }

  abbrev pub await_send : Turn → String → Answer (Unit {0}) → Db → Attempt
  await_send turn id (rejected reason) db = record { db = db; thrown = some reason }
  await_send turn id (fulfilled u) db = attempt_of db (mark_sent valid turn.later id db)

  abbrev pub start_send : Turn → String → Db → Result Fault (DurableCommand × Db) → Attempt
  start_send turn id db (err fault) = record { db = db; thrown = some (message fault) }
  start_send turn id db (ok written) = await_send turn id turn.send (turn.while_sending written.1)

  abbrev pub await_alive : Turn → String → Answer Bool → Db → Attempt
  await_alive turn id (rejected reason) db = record { db = db; thrown = some reason }
  await_alive turn id (fulfilled false) db =
      attempt_of db (fail_transport valid turn.later id "provider exited before send" db)
  await_alive turn id (fulfilled true) db =
      start_send turn id db (mark_send_started valid turn.later id db)

  -- The `try` block.
  abbrev pub try_send : Turn → String → Db → Attempt
  try_send turn id db =
      if turn.is_busy
      then attempt_of db
          (defer_command valid turn.later id "recipient busy" (turn.later + busy_retry_ms) db)
      else await_alive turn id turn.is_alive (turn.while_alive db)

  -- The `catch` block.
  abbrev pub catch_failure : Turn → String → Db → Option String → Result Fault Db
  catch_failure turn id db none = ok db
  catch_failure turn id db (some reason) =
      fail_transport valid turn.later id reason db >>= λ written. ok written.1

  unfoldable pub handle : Turn → String → Db → Result Fault Db
  unfolding mark_sent mark_send_started fail_transport defer_command
  handle turn id db = let tried = try_send turn id db in catch_failure turn id tried.db tried.thrown

  -- The rounds from the i-th on; `none` is returned when the fuel ends.
  unfoldable pub dispatch_loop : (ℕ → Turn) → ℕ → ℕ → Db → Result Fault (Option Db)
  unfolding reserve_command handle
  dispatch_loop turns zero i db = ok none
  dispatch_loop turns (suc fuel) i db =
      reserve_command valid (turns i).at (turns i).at db >>= λ taken. elim taken.0 [
        | none ↦ ok (some taken.1)
        | some command ↦ elim (is_dispatching command.state) [
          | false ↦ dispatch_loop turns fuel (suc i) taken.1
          | true ↦ handle (turns i) command.command_id taken.1 >>= dispatch_loop turns fuel (suc i)
        ]
      ]

  -- A tick that finds another one running does nothing.
  unfoldable pub tick : Bool → (ℕ → Turn) → ℕ → ℕ → ℕ → Db → Result Fault (Option Db)
  unfolding reconcile_commands dispatch_loop
  tick busy turns fuel now stale_after_ms db =
      if busy
      then ok (some db)
      else (reconcile_commands valid now now stale_after_ms db >>= λ recovered.
          dispatch_loop turns fuel 0 recovered.1)

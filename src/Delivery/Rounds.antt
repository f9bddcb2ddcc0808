-- ===== src/Delivery/Rounds.antt =====
-- The loop of a tick ends: a round takes a due command, and none becomes due again within the time
-- that the retries wait.
use orc_state.Base.{
  Bool, true, false, ◌≡◌, refl, arith, ℕ, ◌+◌, ◌≤◌, ◌<◌, String, Option, none, some, ok, Bool-cases,
  Option-cases, Result-cases, inl, inr,
}
use orc_state.Delivery.Schema.{
  DurableCommand, CommandEvent, CommandState, Db, Fault, overdue, update_command, transition,
  command_failed, command_dispatching, moved_to,
}
use orc_state.Delivery.Sending.{
  first_due, reserved, reserve_command, mark_send_started, mark_sent, fail_transport, defer_command,
  busy_retry_ms,
}
use orc_state.Delivery.Dispatcher.{
  Answer, Turn, fulfilled, rejected, attempt_of, await_send, start_send, await_alive, try_send,
  catch_failure, handle,
}
use orc_state.Delivery.Ticks.{
  count_due, first_due-count_due_lt, update_command-rows, mark_sent-due, mark_send_started-due,
  defer_command-due, fail_transport-due, transition-rows,
}

-- While a promise is awaited, at most so many commands come to be due.
abbrev pub Arrive : ℕ → ℕ → (Db → Db) → Type 0
Arrive until more others =
    (db : Db) → count_due until (others db).commands ≤ count_due until db.commands + more

module _ (valid : CommandEvent → Bool) (message : Fault → String) (until : ℕ) where
  await_send-due :
      (turn : Turn) (id : String) (answer : Answer (Unit {0})) (db : Db)
      → count_due until (await_send valid message turn id answer db).db.commands
        ≤ count_due until db.commands
  await_send-due turn id (rejected reason) db = omega arith
  await_send-due turn id (fulfilled u) db = elim (Result-cases (mark_sent valid turn.later id db)) [
    | inl (fault, refused) ↦ ground arith
    | inr ((row, db1), sent) ↦
        ground (arith, mark_sent-due valid turn.later until id db db1 row sent)
  ]

  start_send-due :
      (turn : Turn) (id : String) (more : ℕ) (db : Db)
      → Arrive until more turn.while_sending
      → count_due until
          (start_send valid message turn id db
            (mark_send_started valid turn.later id db)).db.commands
        ≤ count_due until db.commands + more
  start_send-due turn id more db others =
      elim (Result-cases (mark_send_started valid turn.later id db)) [
        | inl (fault, refused) ↦ ground arith
        | inr ((row, db1), begun) ↦ ground (
          arith,
          mark_send_started-due valid turn.later until id db db1 row begun,
          await_send-due turn id turn.send (turn.while_sending db1),
          others db1,
        )
      ]

  await_alive-due :
      (turn : Turn) (id : String) (more : ℕ) (answer : Answer Bool) (db : Db)
      → until < turn.later + 500
      → Arrive until more turn.while_sending
      → count_due until (await_alive valid message turn id answer db).db.commands
        ≤ count_due until db.commands + more
  await_alive-due turn id more (rejected reason) db window others = omega arith
  await_alive-due turn id more (fulfilled true) db window others =
      start_send-due turn id more db others
  await_alive-due turn id more (fulfilled false) db window others =
      elim (Result-cases (fail_transport valid turn.later id "provider exited before send" db)) [
        | inl (fault, refused) ↦ ground arith
        | inr ((row, db1), failed) ↦ ground (
          arith,
          fail_transport-due valid turn.later until id "provider exited before send" db db1 row
              window failed,
        )
      ]

  busy-due :
      (turn : Turn) (id : String) (db : Db)
      → until < turn.later + 500
      → count_due until
          (attempt_of valid message db (
            defer_command valid turn.later id "recipient busy"
              (turn.later + busy_retry_ms)
              db)).db.commands
        ≤ count_due until db.commands
  busy-due turn id db window =
      let retry_at = turn.later + busy_retry_ms in
      elim (Result-cases (defer_command valid turn.later id "recipient busy" retry_at db)) [
        | inl (fault, refused) ↦ ground arith
        | inr ((row, db1), put_off) ↦ ground (
          arith,
          defer_command-due valid turn.later until id "recipient busy" retry_at db db1 row
              (omega arith) put_off,
        )
      ]

  try_send-due :
      (turn : Turn) (id : String) (first more : ℕ) (db : Db)
      → until < turn.later + 500
      → Arrive until first turn.while_alive
      → Arrive until more turn.while_sending
      → count_due until (try_send valid message turn id db).db.commands
        ≤ count_due until db.commands + first + more
  try_send-due turn id first more db window early others = elim (Bool-cases turn.is_busy) [
    | inl busy ↦ ground (arith, busy-due turn id db window)
    | inr free ↦ ground (
      arith,
      await_alive-due turn id more turn.is_alive (turn.while_alive db) window others,
      early db,
    )
  ]

  catch_failure-due :
      (turn : Turn) (id : String) (db db' : Db) (thrown : Option String)
      → until < turn.later + 500
      → catch_failure valid message turn id db thrown ≡ ok db'
      → count_due until db'.commands ≤ count_due until db.commands
  catch_failure-due turn id db db' none window h = ground arith
  catch_failure-due turn id db db' (some reason) window h =
      elim (Result-cases (fail_transport valid turn.later id reason db)) [
        | inl (fault, refused) ↦ absurd (ground arith)
        | inr ((row, db1), failed) ↦
            ground
              (arith, fail_transport-due valid turn.later until id reason db db1 row window failed)
      ]

  pub handle-due :
      (turn : Turn) (id : String) (first more : ℕ) (db db' : Db)
      → until < turn.later + 500
      → Arrive until first turn.while_alive
      → Arrive until more turn.while_sending
      → handle valid message turn id db ≡ ok db'
      → count_due until db'.commands ≤ count_due until db.commands + first + more
  unfolding handle
  handle-due turn id first more db db' window early others h =
      let tried = try_send valid message turn id db in
      ground (
        arith,
        try_send-due turn id first more db window early others,
        catch_failure-due turn id tried.db db' tried.thrown window h,
      )

  pub reserve_command-due :
      (now at : ℕ) (db db' : Db) {c : DurableCommand}
      → at ≤ until
      → reserve_command valid now at db ≡ ok (some c, db')
      → count_due until db'.commands < count_due until db.commands
  unfolding reserve_command
  reserve_command-due now at db db' {c} le h = elim (Option-cases (first_due at db.commands)) [
    | inl e ↦ absurd (ground arith)
    | inr (first, e) ↦ elim (Bool-cases (overdue first.deadline_at at)) [
      | inl late ↦
          elim (Result-cases (
            transition valid now first CommandState.failed command_failed (some "deadline exceeded")
              db)) [
                | inl (fault, refused) ↦ absurd (ground arith)
                | inr ((row, db1), written) ↦ ground (
                  arith,
                  transition-rows valid now until first CommandState.failed command_failed
                      (some "deadline exceeded") db db1 row written,
                  first_due-count_due_lt at until
                      (moved_to now CommandState.failed (some "deadline exceeded")) db.commands
                      {c = first} le (λ x. refl) e,
                )
              ]
      | inr early ↦
          elim (Result-cases
            (update_command valid now first.command_id (reserved at) command_dispatching none db)) [
              | inl (fault, refused) ↦ absurd (ground arith)
              | inr ((row, db1), written) ↦ ground (
                arith,
                update_command-rows valid now until first.command_id (reserved at)
                    command_dispatching none db db1 row written,
                first_due-count_due_lt at until (reserved at) db.commands {c = first} le (λ x. refl)
                    e,
              )
            ]
    ]
  ]

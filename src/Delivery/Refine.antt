-- ===== src/Delivery/Refine.antt =====
-- Every operation on commands makes moves of the abstract life, and nothing else.
use orc_state.Base.{
  Bool, true, false, not, ◌&&◌, ◌||◌, ◌≡◌, refl, arith, String, ℕ, ◌+◌, Option, none, some, is_some,
  leb, ok, Bool-cases, Option-cases, Result-cases, inl, inr,
}
use orc_state.Delivery.Schema.{
  DurableCommand, CommandEvent, CommandState, Db, command_of, is_dispatching, is_unknown,
  command_outcome_unknown, command_failed, command_queued,
}
use orc_state.Delivery.Sending.{
  check_send, failed_send, retry_delay, mark_send_started, mark_sent, fail_transport, defer_command,
  started, delivered, deferred, requeued,
}
use orc_state.Delivery.Acks.{
  AckState, Outcome, of_outcome, outcome_event, check_recipient, check_master, ack_allowed,
  is_unsent, apply_ack, acknowledged, ack_event, acknowledge_command, resolve_unknown_command,
}
use orc_state.Delivery.Moves.{
  Written, Moves, stay, Moves-one, update_command-Move, transition-Move, standing,
}
use orc_state.Delivery.Edges.{
  started-Edge, delivered-Edge, deferred-Edge, requeued-Edge, acknowledged-Edge, resolved-Edge,
  dropped-Edge, lost-Edge,
}

reserved_for_send :
    (c : DurableCommand) (db : Db) {u : Unit {0}}
    → check_send c db ≡ ok u
    → (is_dispatching c.state ≡ true) × (is_some c.send_started_at ≡ false)
reserved_for_send c db {u} h =
    elim (Bool-cases (not (is_dispatching c.state) || is_some c.send_started_at)) [
      | inl e ↦ absurd (ground arith)
      | inr e ↦ (ground arith, ground arith)
    ]

module _ (valid : CommandEvent → Bool) (now : ℕ) where
  pub mark_sent-Moves :
      (id : String) (db db' : Db) (out : DurableCommand)
      → mark_sent valid now id db ≡ ok (out, db')
      → Moves db db'
  unfolding mark_sent
  mark_sent-Moves id db db' out h = elim (Option-cases (command_of db id)) [
    | inl e ↦ absurd (ground arith)
    | inr (c, e) ↦
        elim (Bool-cases (not (is_dispatching c.state) || not (is_some c.send_started_at))) [
          | inl test ↦ stay (ground arith)
          | inr test ↦
              Moves-one
                (update_command-Move valid now id (delivered now) _ none db db' out (λ x. refl) e
                  (delivered-Edge c now (ground arith) (ground arith)) (ground arith)).move
        ]
  ]

  pub mark_send_started-Moves :
      (id : String) (db db' : Db) (out : DurableCommand)
      → mark_send_started valid now id db ≡ ok (out, db')
      → Moves db db'
  unfolding mark_send_started
  mark_send_started-Moves id db db' out h = elim (Option-cases (command_of db id)) [
    | inl e ↦ absurd (ground arith)
    | inr (c, e) ↦ elim (Result-cases (check_send c db)) [
      | inl (fault, refused) ↦ absurd (ground arith)
      | inr (u, checked) ↦
          Moves-one
            (update_command-Move valid now id (started now) _ none db db' out (λ x. refl) e
              (started-Edge c now (reserved_for_send c db checked).0
                (reserved_for_send c db checked).1)
              (ground arith)).move
    ]
  ]

  -- The command's send had started, or it had not.
  fail_dispatched :
      (c : DurableCommand) (id reason : String) (db db' : Db) (out : DurableCommand)
      → command_of db id ≡ some c
      → is_dispatching c.state ≡ true
      → failed_send valid now id reason c db ≡ ok (out, db')
      → Moves db db'
  fail_dispatched c id reason db db' out e d h =
      elim (Bool-cases (is_some c.send_started_at && c.side_effecting)) [
        | inl lost ↦
            Moves-one
              (transition-Move valid now c CommandState.outcome_unknown command_outcome_unknown
                (some reason) db db' out (standing db id {c = c} e)
                (lost-Edge c now (some reason) (ground arith) (ground arith)) (ground arith)).move
        | inr safe ↦ elim (Bool-cases (leb c.max_attempts c.attempt_count)) [
          | inl exhausted ↦
              Moves-one
                (transition-Move valid now c CommandState.failed command_failed (some reason) db db'
                  out (standing db id {c = c} e) (dropped-Edge c now (some reason) (ground arith))
                  (ground arith)).move
          | inr left ↦
              Moves-one
                (update_command-Move valid now id
                  (requeued (now + retry_delay c.attempt_count) reason) command_queued (some reason)
                  db db' out (λ x. refl) e
                  (requeued-Edge c (now + retry_delay c.attempt_count) reason d safe left)
                  (ground arith)).move
        ]
      ]

  pub fail_transport-Moves :
      (id reason : String) (db db' : Db) (out : DurableCommand)
      → fail_transport valid now id reason db ≡ ok (out, db')
      → Moves db db'
  unfolding fail_transport
  fail_transport-Moves id reason db db' out h = elim (Option-cases (command_of db id)) [
    | inl e ↦ absurd (ground arith)
    | inr (c, e) ↦ elim (Bool-cases (is_dispatching c.state)) [
      | inr test ↦ stay (ground arith)
      | inl test ↦ fail_dispatched c id reason db db' out e test (ground arith)
    ]
  ]

  pub defer_command-Moves :
      (id reason : String) (retry_at : ℕ) (db db' : Db) (out : DurableCommand)
      → defer_command valid now id reason retry_at db ≡ ok (out, db')
      → Moves db db'
  unfolding defer_command
  defer_command-Moves id reason retry_at db db' out h = elim (Option-cases (command_of db id)) [
    | inl e ↦ absurd (ground arith)
    | inr (c, e) ↦ elim (Bool-cases (not (is_dispatching c.state) || is_some c.send_started_at)) [
      | inl test ↦ stay (ground arith)
      | inr test ↦
          Moves-one
            (update_command-Move valid now id (deferred retry_at reason) _ (some reason) db db' out
              (λ x. refl) e (deferred-Edge c retry_at reason (ground arith) (ground arith))
              (ground arith)).move
    ]
  ]

  -- An acknowledgement of the command that stands in the table.
  pub apply_ack-Move :
      (c : DurableCommand) (state : AckState) (reason : Option String) (db db' : Db)
      (out : DurableCommand)
      → command_of db c.command_id ≡ some c
      → apply_ack valid now c state reason db ≡ ok (out, db')
      → Written c (acknowledged now state reason c) db db' out
  unfolding apply_ack
  apply_ack-Move c state reason db db' out e h =
      elim (Bool-cases (not (ack_allowed state c.state) || is_unsent c)) [
        | inl test ↦ absurd (ground arith)
        | inr test ↦
            update_command-Move valid now c.command_id (acknowledged now state reason)
              (ack_event state) reason db db' out (λ x. refl) e
              (acknowledged-Edge c now state reason (ground arith) (ground arith)) (ground arith)
      ]

  pub acknowledge_command-Moves :
      (id agent_id session_id : String) (state : AckState) (db db' : Db) (out : DurableCommand)
      → acknowledge_command valid now id agent_id session_id state db ≡ ok (out, db')
      → Moves db db'
  unfolding acknowledge_command
  acknowledge_command-Moves id agent_id session_id state db db' out h =
      elim (Option-cases (command_of db id)) [
        | inl e ↦ absurd (ground arith)
        | inr (c, e) ↦ elim (Result-cases (check_recipient c agent_id session_id db)) [
          | inl (fault, refused) ↦ absurd (ground arith)
          | inr (u, checked) ↦
              Moves-one
                (apply_ack-Move c state none db db' out (standing db id {c = c} e)
                  (ground arith)).move
        ]
      ]

  pub resolve_unknown_command-Moves :
      (blank : String → Bool) (id agent_id session_id : String) (outcome : Outcome)
      (reason : String) (db db' : Db) (out : DurableCommand)
      → resolve_unknown_command valid blank now id agent_id session_id outcome reason db
        ≡ ok (out, db')
      → Moves db db'
  unfolding resolve_unknown_command
  resolve_unknown_command-Moves blank id agent_id session_id outcome reason db db' out h =
      elim (Result-cases (check_master blank agent_id session_id reason db)) [
        | inl (fault, refused) ↦ absurd (ground arith)
        | inr (u, checked) ↦ elim (Option-cases (command_of db id)) [
          | inl e ↦ absurd (ground arith)
          | inr (c, e) ↦ elim (Bool-cases (is_unknown c.state)) [
            | inr known ↦ absurd (ground arith)
            | inl lost ↦
                Moves-one
                  (transition-Move valid now c (of_outcome outcome) (outcome_event outcome)
                    (some reason) db db' out (standing db id {c = c} e)
                    (resolved-Edge c now outcome (some reason) lost) (ground arith)).move
          ]
        ]
      ]

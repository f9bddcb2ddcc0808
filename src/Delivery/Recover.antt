-- ===== src/Delivery/Recover.antt =====
-- The operations that meet several rows or several states: the runtime's acknowledgement, the
-- reservation and the recovery make moves of the abstract life too.
use mathlib.Core.Path.{subst}
use orc_state.Base.{
  Bool, true, false, not, ◌&&◌, ◌||◌, ◌≡◌, refl, arith, String, ℕ, List, [], ◌∷◌, Option, none,
  some, is_some, leb, ok, Bool-cases, Option-cases, Result-cases, inl, inr, filter_by, All,
}
use orc_state.Delivery.Schema.{
  DurableCommand, CommandEvent, CommandState, Db, command_of, run_of, is_queued, is_dispatching,
  overdue, update_command, transition, command_failed, command_outcome_unknown, command_queued,
  command_dispatching,
}
use orc_state.Delivery.Sending.{first_due, reserve_command, reserved, requeued}
use orc_state.Delivery.Acks.{
  AckState, ack_rank, of_ack, is_unsent, accept_first, then_reach, is_accepted, is_running,
  acknowledge_from_runtime,
}
use orc_state.Delivery.Reconcile.{
  Finding, is_pending, recover_command, reconcile_each, reconcile_commands, finding, reason_of,
}
use orc_state.Delivery.Phases.{phase}
use orc_state.Delivery.Edges.{
  droppable, in_flight, dropped-Edge, lost-Edge, reserved-Edge, requeued-Edge,
}
use orc_state.Delivery.Moves.{
  Move, Moves, stay, Moves-one, Moves-trans, standing, transition-Move, update_command-Move,
}
use orc_state.Delivery.Standing.{
  IsTable, Standing, ids, selected-Standing, first_due-is_due, first_due-standing, Move-Standing,
  filter_by_sound,
}
use orc_state.Delivery.Refine.{apply_ack-Move}
use orc_state.Runs.Commit.{Distinct}

-- A move of this command.
abbrev MoveOf : DurableCommand → Db → Db → Type 0
MoveOf c db db' = (move : Move db db') × (move.was ≡ c)

module _ (valid : CommandEvent → Bool) (now : ℕ) where
  accept_first-Moves :
      (c : DurableCommand) (db db' : Db) (out : DurableCommand)
      → command_of db c.command_id ≡ some c
      → accept_first valid now c db ≡ ok (out, db')
      → Moves db db' × (command_of db' out.command_id ≡ some out)
  unfolding accept_first
  accept_first-Moves c db db' out e h =
      elim (Bool-cases (is_accepted c.state || is_running c.state)) [
        | inl done ↦ (stay (ground arith), ground arith)
        | inr fresh ↦
            let w = apply_ack-Move valid now c AckState.accepted none db db' out e (ground arith) in
            (Moves-one w.move, w.stands)
      ]

  then_reach-Moves :
      (c : DurableCommand) (state : AckState) (reason : Option String) (db db' : Db)
      (out : DurableCommand)
      → command_of db c.command_id ≡ some c
      → then_reach valid now c state reason db ≡ ok (out, db')
      → Moves db db'
  unfolding then_reach
  then_reach-Moves c AckState.accepted reason db db' out e h = stay (ground arith)
  then_reach-Moves c AckState.running reason db db' out e h =
      elim (Bool-cases (is_running c.state)) [
        | inl done ↦ stay (ground arith)
        | inr fresh ↦
            Moves-one
              (apply_ack-Move valid now c AckState.running none db db' out e (ground arith)).move
      ]
  then_reach-Moves c AckState.completed reason db db' out e h =
      Moves-one (apply_ack-Move valid now c AckState.completed reason db db' out e h).move
  then_reach-Moves c AckState.failed reason db db' out e h =
      Moves-one (apply_ack-Move valid now c AckState.failed reason db db' out e h).move

  pub acknowledge_from_runtime-Moves :
      (id session_id : String) (state : AckState) (reason : Option String) (db db' : Db)
      (out : DurableCommand)
      → acknowledge_from_runtime valid now id session_id state reason db ≡ ok (out, db')
      → Moves db db'
  unfolding acknowledge_from_runtime
  acknowledge_from_runtime-Moves id session_id state reason db db' out h =
      elim (Option-cases (command_of db id)) [
        | inl e ↦ absurd (ground arith)
        | inr (c, e) ↦ elim (Bool-cases (leb (ack_rank (of_ack state)) (ack_rank c.state))) [
          | inl behind ↦ stay (ground arith)
          | inr ahead ↦ elim (Result-cases (accept_first valid now c db)) [
            | inl (fault, refused) ↦ absurd (ground arith)
            | inr (moved, accepted) ↦
                let (first, there) =
                  accept_first-Moves c db moved.1 moved.0 (standing db id {c = c} e)
                    (ground arith) in
                Moves-trans first
                  (then_reach-Moves moved.0 state reason moved.1 db' out there (ground arith))
          ]
        ]
      ]

  pub reserve_command-Moves :
      (at : ℕ) (db db' : Db) (out : Option DurableCommand)
      → IsTable db
      → reserve_command valid now at db ≡ ok (out, db')
      → Moves db db'
  unfolding reserve_command
  reserve_command-Moves at db db' out table h = elim (Option-cases (first_due at db.commands)) [
    | inl e ↦ stay (ground arith)
    | inr (c, e) ↦
        let there = first_due-standing at db {c = c} table e in
        let due = first_due-is_due at db.commands {c = c} e in
        elim (Bool-cases (overdue c.deadline_at at)) [
          | inl late ↦
              elim (Result-cases (
                transition valid now c CommandState.failed command_failed (some "deadline exceeded")
                  db)) [
                    | inl (fault, refused) ↦ absurd (ground arith)
                    | inr (written, step) ↦ subst (Moves db) {x = written.1} (ground arith) (
                        Moves-one
                          (transition-Move valid now c CommandState.failed command_failed
                            (some "deadline exceeded") db written.1 written.0 there
                            (dropped-Edge c now (some "deadline exceeded") (ground arith))
                            step).move)
                  ]
          | inr early ↦
              elim (Result-cases
                (update_command valid now c.command_id (reserved at) command_dispatching none db)) [
                  | inl (fault, refused) ↦ absurd (ground arith)
                  | inr (written, step) ↦ subst (Moves db) {x = written.1} (ground arith) (
                      Moves-one
                        (update_command-Move valid now c.command_id (reserved at)
                          command_dispatching none db written.1 written.0 (λ x. refl) there
                          (reserved-Edge c at (ground arith)) step).move)
                ]
        ]
  ]

  failing :
      (c : DurableCommand) (reason : String) (db db' : Db) (out : DurableCommand)
      → droppable c.side_effecting (phase c) ≡ true
      → command_of db c.command_id ≡ some c
      → transition valid now c CommandState.failed command_failed (some reason) db ≡ ok (out, db')
      → MoveOf c db db'
  failing c reason db db' out may e h =
      let w =
        transition-Move valid now c CommandState.failed command_failed (some reason) db db' out e
          (dropped-Edge c now (some reason) may) h in
      (w.move, w.moved)

  losing :
      (c : DurableCommand) (reason : String) (db db' : Db) (out : DurableCommand)
      → c.side_effecting ≡ true
      → in_flight (phase c) ≡ true
      → command_of db c.command_id ≡ some c
      → transition valid now c CommandState.outcome_unknown command_outcome_unknown (some reason) db
        ≡ ok (out, db')
      → MoveOf c db db'
  losing c reason db db' out effects flies e h =
      let w =
        transition-Move valid now c CommandState.outcome_unknown command_outcome_unknown
          (some reason) db db' out e (lost-Edge c now (some reason) effects flies) h in
      (w.move, w.moved)

  requeueing :
      (at : ℕ) (c : DurableCommand) (reason : String) (db db' : Db) (out : DurableCommand)
      → is_dispatching c.state ≡ true
      → (is_some c.send_started_at && c.side_effecting) ≡ false
      → leb c.max_attempts c.attempt_count ≡ false
      → command_of db c.command_id ≡ some c
      → update_command valid now c.command_id (requeued at reason) command_queued (some reason) db
        ≡ ok (out, db')
      → MoveOf c db db'
  requeueing at c reason db db' out d safe left e h =
      let w =
        update_command-Move valid now c.command_id (requeued at reason) command_queued (some reason)
          db db' out (λ x. refl) e (requeued-Edge c at reason d safe left) h in
      (w.move, w.moved)

  -- The loop's step on a row that stands.
  recover_command-MoveOf :
      (at : ℕ) (f : Finding) (c : DurableCommand) (db db' : Db) (out : DurableCommand)
      → (f.timed_out || f.stalled || f.exited) ≡ true
      → (f.stalled ≡ true → is_dispatching c.state ≡ true)
      → is_pending c.state ≡ true
      → command_of db c.command_id ≡ some c
      → recover_command valid now at f c db ≡ ok (out, db')
      → MoveOf c db db'
  unfolding recover_command
  recover_command-MoveOf at f c db db' out some_reason stale pending e h =
      let why = reason_of f in
      elim (Bool-cases (is_queued c.state || is_unsent c)) [
        | inl unsent ↦
            elim (Bool-cases (f.exited || f.timed_out || leb c.max_attempts c.attempt_count)) [
              | inl over ↦ failing c why db db' out (ground arith) e (ground arith)
              | inr again ↦
                  requeueing at c why db db' out (ground (arith, stale)) (ground (arith, stale))
                    (ground arith) e (ground arith)
            ]
        | inr sent ↦ elim (Bool-cases c.side_effecting) [
          | inl effects ↦ losing c why db db' out effects (ground arith) e (ground arith)
          | inr none_seen ↦
              elim (Bool-cases (
                is_dispatching c.state
                && not f.exited
                && not f.timed_out
                && not (leb c.max_attempts c.attempt_count))) [
                  | inl again ↦
                      requeueing at c why db db' out (ground arith) (ground arith) (ground arith) e
                        (ground arith)
                  | inr over ↦ failing c why db db' out (ground arith) e (ground arith)
                ]
        ]
      ]

  reconcile_each-Moves :
      (at stale_after_ms : ℕ) (cs : List DurableCommand) (db db' : Db) (out : List DurableCommand)
      → Standing db cs
      → Distinct (ids cs)
      → All (λ (c : DurableCommand). is_pending c.state ≡ true) cs
      → reconcile_each valid now at stale_after_ms cs db ≡ ok (out, db')
      → Moves db db'
  unfolding reconcile_each
  reconcile_each-Moves at stale_after_ms [] db db' out there apart pending h = stay (ground arith)
  reconcile_each-Moves at stale_after_ms (c ∷ cs) db db' out there apart pending h =
      elim (Result-cases (run_of db c.run_id)) [
        | inl (fault, missing) ↦ absurd (ground arith)
        | inr (owner, found) ↦
            let f = finding at stale_after_ms owner c db in
            elim (Bool-cases (f.timed_out || f.stalled || f.exited)) [
              | inr quiet ↦
                  reconcile_each-Moves at stale_after_ms cs db db' out there.1 apart.1 pending.1
                    (ground arith)
              | inl noted ↦ elim (Result-cases (recover_command valid now at f c db)) [
                | inl (fault, refused) ↦ absurd (ground arith)
                | inr ((row, db1), written) ↦
                    let (m, self) =
                      recover_command-MoveOf at f c db db1 row noted (λ e. ground arith) pending.0
                        there.0 written in
                    elim (Result-cases (reconcile_each valid now at stale_after_ms cs db1)) [
                      | inl (fault, refused) ↦ absurd (ground arith)
                      | inr ((rows, db2), rest) ↦ subst (Moves db) {x = db2} (ground arith) (
                          Moves-trans (Moves-one m) (
                            reconcile_each-Moves at stale_after_ms cs db1 db2 rows
                              (Move-Standing m cs (ground (arith, apart.0, self)) there.1) apart.1
                              pending.1 rest))
                    ]
              ]
            ]
      ]

  pub reconcile_commands-Moves :
      (at stale_after_ms : ℕ) (db db' : Db) (out : List DurableCommand)
      → IsTable db
      → reconcile_commands valid now at stale_after_ms db ≡ ok (out, db')
      → Moves db db'
  unfolding reconcile_commands
  reconcile_commands-Moves at stale_after_ms db db' out table h =
      let selected = selected-Standing (λ c. is_pending c.state) db table in
      reconcile_each-Moves at stale_after_ms (filter_by (λ c. is_pending c.state) db.commands) db
        db' out selected.0 selected.1 (filter_by_sound (λ c. is_pending c.state) db.commands) h

-- ===== src/Delivery/Reach.antt =====
-- What holds of commands in every state that the operations of lib/commandDelivery.ts reach, in any
-- order, while sessions and runs change at will between them. A new command has an id that no event
-- names, as randomUUID gives it.
use mathlib.Core.Path.{subst}
use orc_state.Base.{
  Bool, true, ◌≡◌, refl, sym, ap, arith, ℕ, ◌≤◌, ◌<◌, String, List, [], ◌∷◌, Option, some, ok, inl,
  inr,
}
use orc_state.Delivery.Schema.{
  DurableCommand, CommandEvent, Db, Run, Session, command_of, command_queued, is_queued,
  CommandEventName, replace_parents,
}
use orc_state.Delivery.Queue.{EnqueueCommand, CommandPrincipal, enqueue_command, new_command}
use orc_state.Delivery.Sending.{
  reserve_command, mark_send_started, mark_sent, fail_transport, defer_command,
}
use orc_state.Delivery.Acks.{
  AckState, Outcome, acknowledge_command, acknowledge_from_runtime, resolve_unknown_command,
}
use orc_state.Delivery.Reconcile.{reconcile_commands}
use orc_state.Delivery.Phases.{waiting, phase}
use orc_state.Delivery.Life.{Life, count_starts, Life-sends_left}
use orc_state.Delivery.Edges.{Within-le}
use orc_state.Delivery.History.{names_of, Recorded, Recorded-same, Moves-Recorded}
use orc_state.Delivery.Enqueued.{Enqueue, enqueue_command-Enqueue, Queued, Queued-Recorded}
use orc_state.Delivery.Orphans.{replace_parents-Recorded}
use orc_state.Delivery.Moves.{Moves}
use orc_state.Delivery.Standing.{IsTable}
use orc_state.Delivery.Refine.{
  mark_sent-Moves, mark_send_started-Moves, fail_transport-Moves, defer_command-Moves,
  acknowledge_command-Moves, resolve_unknown_command-Moves,
}
use orc_state.Delivery.Recover.{
  acknowledge_from_runtime-Moves, reserve_command-Moves, reconcile_commands-Moves,
}

module _ (valid : CommandEvent → Bool) (blank : String → Bool) where
  -- One operation that succeeds; `elsewhere` is any change of the runs and the
  -- sessions, with what the foreign keys do to commands.
  pub data CommandStep (db db' : Db) : Type 0 where
    enqueue :
        (now : ℕ) (id : String) (caller : CommandPrincipal) (input : EnqueueCommand)
        (out : DurableCommand)
        → names_of id db.events ≡ []
        → enqueue_command valid now id caller input db ≡ ok (out, db')
        → CommandStep db db'
    reserve :
        (now at : ℕ) (out : Option DurableCommand)
        → reserve_command valid now at db ≡ ok (out, db')
        → CommandStep db db'
    send_started :
        (now : ℕ) (id : String) (out : DurableCommand)
        → mark_send_started valid now id db ≡ ok (out, db')
        → CommandStep db db'
    sent :
        (now : ℕ) (id : String) (out : DurableCommand)
        → mark_sent valid now id db ≡ ok (out, db')
        → CommandStep db db'
    transport_failed :
        (now : ℕ) (id reason : String) (out : DurableCommand)
        → fail_transport valid now id reason db ≡ ok (out, db')
        → CommandStep db db'
    deferred :
        (now : ℕ) (id reason : String) (retry_at : ℕ) (out : DurableCommand)
        → defer_command valid now id reason retry_at db ≡ ok (out, db')
        → CommandStep db db'
    acknowledged :
        (now : ℕ) (id agent_id session_id : String) (state : AckState) (out : DurableCommand)
        → acknowledge_command valid now id agent_id session_id state db ≡ ok (out, db')
        → CommandStep db db'
    proved :
        (now : ℕ) (id session_id : String) (state : AckState) (reason : Option String)
        (out : DurableCommand)
        → acknowledge_from_runtime valid now id session_id state reason db ≡ ok (out, db')
        → CommandStep db db'
    resolved :
        (now : ℕ) (id agent_id session_id : String) (outcome : Outcome) (reason : String)
        (out : DurableCommand)
        → resolve_unknown_command valid blank now id agent_id session_id outcome reason db
          ≡ ok (out, db')
        → CommandStep db db'
    reconciled :
        (now at stale_after_ms : ℕ) (out : List DurableCommand)
        → reconcile_commands valid now at stale_after_ms db ≡ ok (out, db')
        → CommandStep db db'
    elsewhere :
        (runs : List Run) (sessions : List Session)
        → db' ≡ replace_parents runs sessions db
        → CommandStep db db'

  -- From tables without commands.
  pub data CommandReach : Db → Type 0 where
    start :
        (runs : List Run) (sessions : List Session)
        → CommandReach (record { commands = []; runs = runs; sessions = sessions; events = [] })
    next : {db db' : Db} → CommandReach db → CommandStep db db' → CommandReach db'

  -- What a step does to the table and the log of commands.
  pub data Change (db db' : Db) : Type 0 where
    moves : Moves db db' → Change db db'
    queues :
        (new : DurableCommand)
        → Queued new db db'
        → names_of new.command_id db.events ≡ []
        → phase new ≡ waiting
        → new.attempt_count < new.max_attempts
        → Change db db'
    orphans :
        (runs : List Run) (sessions : List Session)
        → db' ≡ replace_parents runs sessions db
        → Change db db'
    nothing : db'.commands ≡ db.commands → db'.events ≡ db.events → Change db db'

  Enqueue-Change :
      {now : ℕ} {id : String} {caller : CommandPrincipal} {input : EnqueueCommand}
      {out : DurableCommand} {db db' : Db}
      → names_of id db.events ≡ []
      → Enqueue valid now id caller input out db db'
      → Change db db'
  Enqueue-Change {now} {id} {caller} {input} unseen e = elim e.effect [
    | inl (found, (again, same)) ↦
        nothing (ap (λ (d : Db). d.commands) same) (ap (λ (d : Db). d.events) same)
    | inr (fresh, (new, (queued, left))) ↦
        queues (new_command now id input e.payload e.actor e.recipient) queued unseen refl
          (omega (arith, left))
  ]

  -- Over a table, every operation queues a new command, makes moves, or leaves commands alone.
  pub CommandStep-Change : {db db' : Db} → CommandStep db db' → IsTable db → Change db db'
  CommandStep-Change {db} {db'} (enqueue now id caller input out unseen h) t =
      Enqueue-Change unseen (enqueue_command-Enqueue valid now id caller input db db' out h)
  CommandStep-Change {db} {db'} (reserve now at out h) t =
      moves (reserve_command-Moves valid now at db db' out t h)
  CommandStep-Change {db} {db'} (send_started now id out h) t =
      moves (mark_send_started-Moves valid now id db db' out h)
  CommandStep-Change {db} {db'} (sent now id out h) t =
      moves (mark_sent-Moves valid now id db db' out h)
  CommandStep-Change {db} {db'} (transport_failed now id reason out h) t =
      moves (fail_transport-Moves valid now id reason db db' out h)
  CommandStep-Change {db} {db'} (deferred now id reason retry_at out h) t =
      moves (defer_command-Moves valid now id reason retry_at db db' out h)
  CommandStep-Change {db} {db'} (acknowledged now id agent_id session_id state out h) t =
      moves (acknowledge_command-Moves valid now id agent_id session_id state db db' out h)
  CommandStep-Change {db} {db'} (proved now id session_id state reason out h) t =
      moves (acknowledge_from_runtime-Moves valid now id session_id state reason db db' out h)
  CommandStep-Change {db} {db'} (resolved now id agent_id session_id outcome reason out h) t =
      moves (
        resolve_unknown_command-Moves valid now blank id agent_id session_id outcome reason db db'
          out h)
  CommandStep-Change {db} {db'} (reconciled now at stale_after_ms out h) t =
      moves (reconcile_commands-Moves valid now at stale_after_ms db db' out t h)
  CommandStep-Change {db} {db'} (elsewhere runs sessions same) t = orphans runs sessions same

  Change-Recorded : {db db' : Db} → Change db db' → Recorded db → Recorded db'
  Change-Recorded (moves ms) r = Moves-Recorded ms r
  Change-Recorded (queues new q unseen waits left) r = Queued-Recorded q unseen waits left r
  Change-Recorded {db} (orphans runs sessions same) r =
      subst Recorded (sym same) (replace_parents-Recorded runs sessions db r.table r)
  Change-Recorded (nothing commands events) r = Recorded-same commands events r

  Recorded-start :
      (runs : List Run) (sessions : List Session)
      → Recorded (record { commands = []; runs = runs; sessions = sessions; events = [] })
  Recorded-start runs sessions = record { table = tt; lived = λ id c h. absurd (ground arith) }

  pub CommandReach-Recorded : {db : Db} → CommandReach db → Recorded db
  CommandReach-Recorded (start runs sessions) = Recorded-start runs sessions
  CommandReach-Recorded (next before step) =
      let r = CommandReach-Recorded before in Change-Recorded (CommandStep-Change step r.table) r

  -- In every reachable state, the events of a command are that it was queued and then a path of the
  -- abstract life, from waiting to the phase that its row is in.
  pub CommandReach-Life :
      {db : Db}
      → CommandReach db
      → (id : String) {c : DurableCommand} → command_of db id ≡ some c
      → (names : List CommandEventName) × ((names_of id db.events ≡ command_queued ∷ names)
          × Life c.side_effecting (phase c) waiting names)
  CommandReach-Life reached id {c} h =
      let l = (CommandReach-Recorded reached).lived id c h in (l.names, (l.log, l.path))

  -- In every reachable state, the log of a command with side effects has at most one start of a send.
  pub CommandReach-sent_once :
      {db : Db}
      → CommandReach db
      → (id : String) {c : DurableCommand} → command_of db id ≡ some c
      → c.side_effecting ≡ true
      → count_starts (names_of id db.events) ≤ 1
  CommandReach-sent_once {db} reached id {c} h effects =
      let l = (CommandReach-Recorded reached).lived id c h in
      let path = subst (λ b. Life b (phase c) waiting l.names) effects l.path in
      rw l.log (omega (arith, Life-sends_left path))

  -- In every reachable state, a command has counted no more attempts than it may, and fewer while it
  -- is queued.
  pub CommandReach-attempts :
      {db : Db}
      → CommandReach db
      → (id : String) {c : DurableCommand} → command_of db id ≡ some c
      → (c.attempt_count ≤ c.max_attempts)
        × (is_queued c.state ≡ true → c.attempt_count < c.max_attempts)
  CommandReach-attempts reached id {c} h =
      let l = (CommandReach-Recorded reached).lived id c h in
      (Within-le (phase c) c.attempt_count c.max_attempts l.within, λ q. ground (arith, l.within))

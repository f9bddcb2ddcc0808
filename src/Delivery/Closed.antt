-- ===== src/Delivery/Closed.antt =====
-- Commands that have ended.
use mathlib.Core.Path.{subst}
use orc_state.Base.{
  Bool, true, false, List, none, any_of, ◌⊎◌, refl, sym, ◌≡◌, ◌∙◌, ap, arith, String, some, ◌==◌,
  eq_iff, find, Bool-cases, inl, inr,
}
use orc_state.Delivery.Schema.{
  DurableCommand, CommandEvent, Db, command_of, is_terminal, has_command_id, Run, Session, has_run,
  unlink, replace_parents,
}
use orc_state.Delivery.Phases.{Progress, closed, phase}
use orc_state.Delivery.Life.{closed_ends}
use orc_state.Delivery.Moves.{Move, Moves, still, then_move}
use orc_state.Delivery.Standing.{Move-other, IsTable}
use orc_state.Delivery.Orphans.{command_of-replace_parents}
use orc_state.Delivery.Enqueued.{Queued, queued_other, find_fresh}
use orc_state.Delivery.Reach.{
  CommandStep, CommandStep-Change, CommandReach, CommandReach-Recorded, moves, queues, orphans,
  nothing,
}

is_closed : (c : DurableCommand) → is_terminal c.state ≡ true → phase c ≡ closed
is_closed c h = ground arith

-- The row stands, but for the ids of sessions that are gone; or it went with its run.
abbrev pub Kept : String → DurableCommand → Db → Type 0
Kept id c db =
    ((now : DurableCommand) × ((command_of db id ≡ some now)
        × (now
            ≡ record c { session_id = now.session_id; actor_session_id = now.actor_session_id })))
    ⊎ ((command_of db id ≡ none) × (any_of (λ (r : Run). r.run_id == c.run_id) db.runs ≡ false))

module _ (id : String) {c : DurableCommand} (ended : is_terminal c.state ≡ true) where
  Move-ended : {db db' : Db} → Move db db' → command_of db id ≡ some c → command_of db' id ≡ some c
  Move-ended {db} {db'} m h = elim (Bool-cases (id == m.was.command_id)) [
    | inl e ↦
        let same : m.was ≡ c = ground (arith, m.found, eq_iff id m.was.command_id) in
        let step : Progress m.was.side_effecting closed (phase (m.set m.was)) m.name =
          subst (λ p. Progress m.was.side_effecting p (phase (m.set m.was)) m.name)
            (ap phase same ∙ is_closed c ended) m.edge.progress in
        absurd (closed_ends step)
    | inr e ↦ Move-other m id (λ same. ground (arith, eq_iff id m.was.command_id)) ∙ h
  ]

  Moves-ended :
      {db db' : Db} → Moves db db' → command_of db id ≡ some c → command_of db' id ≡ some c
  Moves-ended still h = h
  Moves-ended (then_move first m) h = Move-ended m (Moves-ended first h)

  Queued-ended :
      {new : DurableCommand} {db db' : Db}
      → Queued new db db'
      → command_of db id ≡ some c
      → command_of db' id ≡ some c
  Queued-ended {new} {db} q h =
      queued_other q id (λ same.
        ground (arith, find_fresh new.command_id db.commands q.fresh, ap (command_of db) same))
      ∙ h

  orphaned_Kept :
      (runs : List Run) (sessions : List Session) (db : Db)
      → IsTable db
      → command_of db id ≡ some c
      → Kept id c (replace_parents runs sessions db)
  orphaned_Kept runs sessions db table h =
      let row = command_of-replace_parents runs sessions db table id {c = c} h in
      elim (Bool-cases (has_run runs c)) [
        | inl owned ↦ inl (unlink sessions c, (ground (arith, row), refl))
        | inr gone ↦ inr (ground (arith, row), gone)
      ]

  -- A command that is completed, failed or cancelled is never changed again by an operation, in any
  -- reachable state. What other operations do to runs and sessions leaves the row as it is but for the
  -- ids of its sessions, unless its run is deleted: then the row is gone with it.
  pub CommandStep-ended :
      (valid : CommandEvent → Bool) (blank : String → Bool) {db db' : Db}
      → CommandReach valid blank db
      → CommandStep valid blank db db'
      → command_of db id ≡ some c
      → (command_of db' id ≡ some c)
        ⊎ ((db'.events ≡ db.events)
            × ((db' ≡ replace_parents db'.runs db'.sessions db) × Kept id c db'))
  CommandStep-ended valid blank {db} {db'} reached step h =
      let table = (CommandReach-Recorded valid blank reached).table in
      elim (CommandStep-Change valid blank step table) [
        | moves ms ↦ inl (Moves-ended ms h)
        | queues new q unseen waits left ↦ inl (Queued-ended q h)
        | orphans runs sessions same ↦ inr (
          ap (λ (d : Db). d.events) same,
          (
            subst (λ (d : Db). d ≡ replace_parents d.runs d.sessions db) (sym same) refl,
            subst (Kept id c) (sym same) (orphaned_Kept runs sessions db table h),
          ),
        )
        | nothing commands events ↦ inl (ap (λ l. find (has_command_id id) l) commands ∙ h)
      ]

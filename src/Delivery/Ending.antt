-- ===== src/Delivery/Ending.antt =====
-- CommandDispatcher.tick ends.
use mathlib.Core.Path.{subst}
use orc_state.Base.{
  Bool, true, false, ◌≡◌, ◌⊎◌, refl, sym, ◌∙◌, ap, arith, ℕ, zero, suc, ◌+◌, ◌≤◌, ◌<◌, List, [],
  ◌∷◌, length, Option, none, some, ok, err, Result, Bool-cases, Option-cases, Result-cases, inl,
  inr, String, ◌==◌,
}
use orc_state.Store.Schema.{update_where}
use orc_state.Delivery.Schema.{DurableCommand, CommandEvent, Db, Fault, is_dispatching}
use orc_state.Delivery.Sending.{first_due, reserve_command}
use orc_state.Delivery.Reconcile.{reconcile_commands}
use orc_state.Delivery.Dispatcher.{Turn, handle, dispatch_loop, tick}
use orc_state.Delivery.Moves.{Moves, still, then_move}
use orc_state.Delivery.Standing.{IsTable}
use orc_state.Delivery.Recover.{reconcile_commands-Moves}
use orc_state.Delivery.Ticks.{count_due}
use orc_state.Delivery.Rounds.{Arrive, handle-due, reserve_command-due}

-- A loop that ended: by what it threw, or with tables in which no command is due at one of its
-- readings of the clock.
pub data Ended (turns : ℕ → Turn) (outcome : Result Fault (Option Db)) : Type 0 where
  by_fault : (fault : Fault) → outcome ≡ err fault → Ended turns outcome
  idle :
      (db : Db) (round : ℕ)
      → outcome ≡ ok (some db)
      → first_due (turns round).at db.commands ≡ none
      → Ended turns outcome

-- The readings of a tick lie within half a second.
abbrev pub WithinWindow : (ℕ → Turn) → ℕ → Type 0
WithinWindow turns until =
    (round : ℕ) → ((turns round).at ≤ until) × (until < (turns round).later + 500)

-- What other operations do while a round awaits the transport: in round `i` at most `first i` and then
-- `more i` commands come to be due, and from round `i` on at most `coming i`.
pub record Interference (turns : ℕ → Turn) (until : ℕ) (coming : ℕ → ℕ) : Type 0 where
  pub first : ℕ → ℕ
  pub more : ℕ → ℕ
  pub alive : (round : ℕ) → Arrive until (first round) (turns round).while_alive
  pub sending : (round : ℕ) → Arrive until (more round) (turns round).while_sending
  pub total : (round : ℕ) → first round + more round + coming (suc round) ≤ coming round

Ended-from :
    {turns : ℕ → Turn} {first second : Result Fault (Option Db)}
    → first ≡ second
    → Ended turns second
    → Ended turns first
Ended-from {turns} e h = subst (Ended turns) (sym e) h

count_due-le-length : (at : ℕ) (cs : List DurableCommand) → count_due at cs ≤ length cs
count_due-le-length at [] = omega arith
count_due-le-length at (c ∷ cs) = ground (arith, count_due-le-length at cs)

length-update_where :
    (p : DurableCommand → Bool) (set : DurableCommand → DurableCommand) (cs : List DurableCommand)
    → length (update_where p set cs) ≡ length cs
length-update_where p set [] = refl
length-update_where p set (c ∷ cs) = ground (arith, length-update_where p set cs)

Moves-length : {db db' : Db} → Moves db db' → length db'.commands ≡ length db.commands
Moves-length still = refl
Moves-length (then_move {db1} {db2} first m) =
    ap length m.rows
    ∙ length-update_where (λ c. c.command_id == m.was.command_id) m.set db1.commands
    ∙ Moves-length first

reserve_command-none :
    (valid : CommandEvent → Bool) (now at : ℕ) (db db' : Db)
    → reserve_command valid now at db ≡ ok (none, db')
    → first_due at db'.commands ≡ none
unfolding reserve_command
reserve_command-none valid now at db db' h = elim (Option-cases (first_due at db.commands)) [
  | inl e ↦ ground arith
  | inr (first, e) ↦ absurd (ground arith)
]

module _ (valid : CommandEvent → Bool) (message : Fault → String) (turns : ℕ → Turn) (until : ℕ)
    (window : WithinWindow turns until) (coming : ℕ → ℕ)
    (others : Interference turns until coming) where
  dispatch_loop_ends :
      (fuel i : ℕ) (db : Db)
      → count_due until db.commands + coming i < fuel
      → Ended turns (dispatch_loop valid message turns fuel i db)
  unfolding dispatch_loop
  dispatch_loop_ends zero i db less = absurd (omega arith)
  dispatch_loop_ends (suc fuel) i db less =
      let turn = turns i in
      elim (Result-cases (reserve_command valid turn.at turn.at db)) [
        | inl (fault, refused) ↦ by_fault fault (ground arith)
        | inr ((none, db1), taken) ↦
            idle db1 i (ground arith) (reserve_command-none valid turn.at turn.at db db1 taken)
        | inr ((some c, db1), taken) ↦
            let fewer =
              reserve_command-due valid message until turn.at turn.at db db1 {c = c} (window i).0
                taken in
            elim (Bool-cases (is_dispatching c.state)) [
              | inr failed ↦
                  Ended-from (ground arith)
                    (dispatch_loop_ends fuel (suc i) db1 (omega (arith, others.total i)))
              | inl held ↦ elim (Result-cases (handle valid message turn c.command_id db1)) [
                | inl (fault, refused) ↦ by_fault fault (ground arith)
                | inr (db2, handled) ↦ Ended-from (ground arith) (
                    dispatch_loop_ends fuel (suc i) db2 (
                      omega (
                        arith,
                        handle-due valid message until turn c.command_id (others.first i)
                            (others.more i) db1 db2 (window i).1 (others.alive i) (others.sending i)
                            handled,
                        others.total i,
                      )))
              ]
            ]
      ]

  -- A tick may be interleaved with other operations, which run while the transport is awaited. Over a
  -- table, if its readings of the clock lie within half a second and those operations make at most
  -- `coming 0` commands due, a tick does not run out of fuel that exceeds the number of commands plus
  -- `coming 0`: whatever the transport answers, it ends by a fault or with tables in which nothing is
  -- due at one of its readings. A tick that finds another one running does nothing.
  pub tick_ends :
      (busy : Bool) (fuel now stale_after_ms : ℕ) (db : Db)
      → IsTable db
      → length db.commands + coming 0 < fuel
      → ((busy ≡ true) × (tick valid message busy turns fuel now stale_after_ms db ≡ ok (some db)))
        ⊎ Ended turns (tick valid message busy turns fuel now stale_after_ms db)
  unfolding tick
  tick_ends true fuel now stale_after_ms db table enough = inl (refl, refl)
  tick_ends false fuel now stale_after_ms db table enough =
      inr (elim (Result-cases (reconcile_commands valid now now stale_after_ms db)) [
        | inl (fault, refused) ↦ by_fault fault (ground arith)
        | inr ((changed, db1), recovered) ↦
            let kept = Moves-length (
              reconcile_commands-Moves valid now now stale_after_ms db db1 changed table
                recovered) in
            Ended-from (ground arith) (
              dispatch_loop_ends fuel 0 db1
                (omega (arith, kept, count_due-le-length until db1.commands)))
      ])

-- ===== src/Delivery/Ticks.antt =====
-- The operations of a round make no command due before the round's own clock.
use native.Mathlib.Nat.{pow-suc}
use orc_state.Base.{
  Bool, true, false, not, ◌&&◌, ◌≡◌, refl, arith, ℕ, zero, suc, ◌+◌, ◌^◌, ◌≤◌, ◌<◌, String, List,
  [], ◌∷◌, Option, none, some, ok, Bool-cases, Option-cases, Result-cases, inl, inr, leb, ltb,
  eq_refl, is_some, ◌||◌,
}
use orc_state.Store.Schema.{update_where}
use orc_state.Delivery.Moves.{append_event-ok}
use orc_state.Delivery.Schema.{
  DurableCommand, CommandEvent, CommandEventName, CommandState, Db, command_of, has_command_id,
  is_queued, is_dispatching, update_command, transition, moved_to, command_failed,
  command_outcome_unknown, command_queued, append_event, command_sent, command_send_started,
}
use orc_state.Delivery.Sending.{
  is_due, first_due, started, delivered, requeued, deferred, retry_delay, mark_send_started,
  mark_sent, fail_transport, failed_send, defer_command, check_send,
}

abbrev pub count_due : ℕ → List DurableCommand → ℕ
count_due at [] = 0
count_due at (c ∷ cs) =
    let rest = count_due at cs in elim (is_due at c) [ true ↦ suc rest | false ↦ rest ]

two_pow_ge : (n : ℕ) → 1 ≤ 2 ^ n
two_pow_ge zero = omega arith
two_pow_ge (suc n) = omega (arith, pow-suc 2 n, two_pow_ge n)

retry_delay-ge : (attempts : ℕ) → 500 ≤ retry_delay attempts
retry_delay-ge zero = omega arith
retry_delay-ge (suc n) = omega (arith, two_pow_ge n)

update-count_due :
    (at : ℕ) (id : String) (set : DurableCommand → DurableCommand) (cs : List DurableCommand)
    → ((x : DurableCommand) → is_due at (set x) ≡ true → is_due at x ≡ true)
    → count_due at (update_where (has_command_id id) set cs) ≤ count_due at cs
update-count_due at id set [] h = omega arith
update-count_due at id set (c ∷ cs) h = ground (arith, h c, update-count_due at id set cs h)

is_due-le :
    (at until : ℕ) (c : DurableCommand) → at ≤ until → is_due at c ≡ true → is_due until c ≡ true
is_due-le at until c le h = ground arith

-- Taking the first due command, and leaving it not due, leaves fewer due commands.
pub first_due-count_due_lt :
    (at until : ℕ) (set : DurableCommand → DurableCommand) (cs : List DurableCommand)
    {c : DurableCommand}
    → at ≤ until
    → ((x : DurableCommand) → is_due until (set x) ≡ false)
    → first_due at cs ≡ some c
    → count_due until (update_where (has_command_id c.command_id) set cs) < count_due until cs
first_due-count_due_lt at until set [] le h e = absurd (ground arith)
first_due-count_due_lt at until set (x ∷ xs) {c} le h e =
    let rest = update-count_due until c.command_id set xs (λ y k. absurd (ground (arith, h y))) in
    let head : x ≡ c
        → is_due at x ≡ true
        → count_due until (update_where (has_command_id c.command_id) set (x ∷ xs))
          < count_due until (x ∷ xs) =
      λ same due.
        ground (arith, rest, h x, same, is_due-le at until x le due, eq_refl c.command_id) in
    elim (Option-cases (first_due at xs)) [
      | inl empty ↦ elim (Bool-cases (is_due at x)) [
        | inl due ↦ head (ground arith) due
        | inr idle ↦ absurd (ground arith)
      ]
      | inr (y, found) ↦ elim (Bool-cases (is_due at x && not (ltb y.created_at x.created_at))) [
        | inl first ↦ head (ground arith) (ground arith)
        | inr later ↦
            ground (arith, h x, first_due-count_due_lt at until set xs {c = c} le h (ground arith))
      ]
    ]

module _ (valid : CommandEvent → Bool) (now until : ℕ) where
  pub update_command-rows :
      (id : String) (set : DurableCommand → DurableCommand) (name : CommandEventName)
      (reason : Option String) (db db' : Db) (out : DurableCommand)
      → update_command valid now id set name reason db ≡ ok (out, db')
      → db'.commands ≡ update_where (has_command_id id) set db.commands
  unfolding update_command
  update_command-rows id set name reason db db' out h =
      let written = record db { commands = update_where (has_command_id id) set db.commands } in
      elim (Option-cases (command_of written id)) [
        | inl e ↦ absurd (ground arith)
        | inr (c, e) ↦ elim (Result-cases (append_event valid now c name reason written)) [
          | inl (fault, refused) ↦ absurd (ground arith)
          | inr (after, appended) ↦
              let (owner, same) = append_event-ok valid now c name reason written after appended in
              ground (arith, same)
        ]
      ]

  -- A write that makes no command due makes no more of them due.
  update_command-due :
      (id : String) (set : DurableCommand → DurableCommand) (name : CommandEventName)
      (reason : Option String) (db db' : Db) (out : DurableCommand)
      → ((x : DurableCommand) → is_due until (set x) ≡ true → is_due until x ≡ true)
      → update_command valid now id set name reason db ≡ ok (out, db')
      → count_due until db'.commands ≤ count_due until db.commands
  update_command-due id set name reason db db' out h e =
      rw (update_command-rows id set name reason db db' out e)
        (update-count_due until id set db.commands h)

  pub transition-rows :
      (c : DurableCommand) (state : CommandState) (name : CommandEventName) (reason : Option String)
      (db db' : Db) (out : DurableCommand)
      → transition valid now c state name reason db ≡ ok (out, db')
      → db'.commands
        ≡ update_where (has_command_id c.command_id) (moved_to now state reason) db.commands
  unfolding transition
  transition-rows c state name reason db db' out h =
      update_command-rows c.command_id (moved_to now state reason) name reason db db' out h

  transition-due :
      (c : DurableCommand) (state : CommandState) (name : CommandEventName) (reason : Option String)
      (db db' : Db) (out : DurableCommand)
      → is_queued state ≡ false
      → transition valid now c state name reason db ≡ ok (out, db')
      → count_due until db'.commands ≤ count_due until db.commands
  unfolding transition
  transition-due c state name reason db db' out h e =
      update_command-due c.command_id (moved_to now state reason) name reason db db' out
        (λ x d. absurd (ground arith)) e

  pub mark_sent-due :
      (id : String) (db db' : Db) (out : DurableCommand)
      → mark_sent valid now id db ≡ ok (out, db')
      → count_due until db'.commands ≤ count_due until db.commands
  unfolding mark_sent
  mark_sent-due id db db' out h = elim (Option-cases (command_of db id)) [
    | inl e ↦ absurd (ground arith)
    | inr (c, e) ↦
        elim (Bool-cases (not (is_dispatching c.state) || not (is_some c.send_started_at))) [
          | inl test ↦ ground arith
          | inr test ↦
              update_command-due id (delivered now) command_sent none db db' out
                (λ x d. absurd (ground arith)) (ground arith)
        ]
  ]

  pub mark_send_started-due :
      (id : String) (db db' : Db) (out : DurableCommand)
      → mark_send_started valid now id db ≡ ok (out, db')
      → count_due until db'.commands ≤ count_due until db.commands
  unfolding mark_send_started
  mark_send_started-due id db db' out h = elim (Option-cases (command_of db id)) [
    | inl e ↦ absurd (ground arith)
    | inr (c, e) ↦ elim (Result-cases (check_send c db)) [
      | inl (fault, refused) ↦ absurd (ground arith)
      | inr (u, checked) ↦
          update_command-due id (started now) command_send_started none db db' out (λ x d. d)
            (ground arith)
    ]
  ]

  pub defer_command-due :
      (id reason : String) (retry_at : ℕ) (db db' : Db) (out : DurableCommand)
      → until < retry_at
      → defer_command valid now id reason retry_at db ≡ ok (out, db')
      → count_due until db'.commands ≤ count_due until db.commands
  unfolding defer_command
  defer_command-due id reason retry_at db db' out after h = elim (Option-cases (command_of db id)) [
    | inl e ↦ absurd (ground arith)
    | inr (c, e) ↦ elim (Bool-cases (not (is_dispatching c.state) || is_some c.send_started_at)) [
      | inl test ↦ ground arith
      | inr test ↦
          update_command-due id (deferred retry_at reason) command_queued (some reason) db db' out
            (λ x d. absurd (ground arith)) (ground arith)
    ]
  ]

  failed_send-due :
      (id reason : String) (c : DurableCommand) (db db' : Db) (out : DurableCommand)
      → until < now + 500
      → failed_send valid now id reason c db ≡ ok (out, db')
      → count_due until db'.commands ≤ count_due until db.commands
  failed_send-due id reason c db db' out window h =
      elim (Bool-cases (is_some c.send_started_at && c.side_effecting)) [
        | inl lost ↦
            transition-due c CommandState.outcome_unknown command_outcome_unknown (some reason) db
              db' out refl (ground arith)
        | inr safe ↦ elim (Bool-cases (leb c.max_attempts c.attempt_count)) [
          | inl over ↦
              transition-due c CommandState.failed command_failed (some reason) db db' out refl
                (ground arith)
          | inr left ↦
              let retry_at = now + retry_delay c.attempt_count in
              update_command-due id (requeued retry_at reason) command_queued (some reason) db db'
                out (λ x d. absurd (ground (arith, retry_delay-ge c.attempt_count))) (ground arith)
        ]
      ]

  pub fail_transport-due :
      (id reason : String) (db db' : Db) (out : DurableCommand)
      → until < now + 500
      → fail_transport valid now id reason db ≡ ok (out, db')
      → count_due until db'.commands ≤ count_due until db.commands
  unfolding fail_transport
  fail_transport-due id reason db db' out window h = elim (Option-cases (command_of db id)) [
    | inl e ↦ absurd (ground arith)
    | inr (c, e) ↦ elim (Bool-cases (is_dispatching c.state)) [
      | inr test ↦ ground arith
      | inl test ↦ failed_send-due id reason c db db' out window (ground arith)
    ]
  ]

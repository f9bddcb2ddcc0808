-- ===== src/Delivery/Repeat.antt =====
-- enqueueCommand under the same key: the second call finds the command of the first.
use mathlib.Core.Path.{subst}
use orc_state.Base.{
  Bool, true, false, ◌≡◌, refl, sym, ◌∙◌, ap, arith, ℕ, String, List, [], ◌∷◌, Option, none, some,
  eq_refl, ok, inl, inr, find, any_of, opt_eq, nat_eq, or_default,
}
use orc_state.Base.Time.{Stamp, iso, junk}
use orc_state.Base.Find.{find-snoc}
use orc_state.Delivery.Schema.{DurableCommand, CommandEvent, Db, Session}
use orc_state.Delivery.Queue.{
  EnqueueCommand, CommandPrincipal, Actor, coordinator, principal, check_enqueue, has_key,
  is_repeat, new_command, enqueue_command, same_bool, same_deadline,
}
use orc_state.Delivery.Enqueued.{enqueue_command-Enqueue}

find-none-any {ℓ} :
    {A : Type ℓ} (p : A → Bool) (xs : List A) → find p xs ≡ none → any_of p xs ≡ false
find-none-any p [] h = refl
find-none-any p (x ∷ xs) h = ground (arith, find-none-any p xs)

opt_eq_refl : (o : Option String) → opt_eq o o ≡ true
opt_eq_refl none = refl
opt_eq_refl (some s) = eq_refl s

same_bool_refl : (b : Bool) → same_bool b b ≡ true
same_bool_refl b = ground arith

nat_eq_refl : (n : ℕ) → nat_eq n n ≡ true
nat_eq_refl n = ground arith

same_deadline_refl : (d : Option Stamp) → same_deadline d d ≡ true
same_deadline_refl none = refl
same_deadline_refl (some (iso n)) = nat_eq_refl n
same_deadline_refl (some (junk s)) = eq_refl s

module _ (valid : CommandEvent → Bool) (caller : CommandPrincipal) (input : EnqueueCommand) where
  new_is_repeat :
      (now : ℕ) (id payload : String) (actor : Actor) (recipient : Session)
      → is_repeat input payload actor recipient (new_command now id input payload actor recipient)
        ≡ true
  new_is_repeat now id payload actor recipient = ground (
    arith,
    opt_eq_refl actor.session_id,
    eq_refl recipient.session_id,
    eq_refl input.kind,
    eq_refl payload,
    same_bool_refl (or_default input.side_effecting true),
    nat_eq_refl (or_default input.max_attempts 3),
    same_deadline_refl input.deadline_at,
  )

  new_has_key :
      (now : ℕ) (id payload : String) (actor : Actor) (recipient : Session)
      → has_key input (new_command now id input payload actor recipient) ≡ true
  new_has_key now id payload actor recipient =
      ground (arith, eq_refl input.run_id, eq_refl input.idempotency_key)

  found_again :
      (now : ℕ) (id : String) (db : Db) (out : DurableCommand) {payload : String} {actor : Actor}
      {recipient : Session}
      → check_enqueue caller input db ≡ ok (payload, (actor, recipient))
      → find (has_key input) db.commands ≡ some out
      → is_repeat input payload actor recipient out ≡ true
      → enqueue_command valid now id caller input db ≡ ok (out, db)
  unfolding enqueue_command
  found_again now id db out asked found same = ground (arith, asked, found, same)

  same_checks :
      (who : CommandPrincipal) (db : Db) (commands : List DurableCommand)
      (events : List CommandEvent)
      → check_enqueue who input (record db { commands = commands; events = events })
        ≡ check_enqueue who input db
  same_checks coordinator db commands events = refl
  same_checks (principal agent_id session_id) db commands events = refl

  kept_checks :
      (db db' : Db)
      → db' ≡ record db { commands = db'.commands; events = db'.events }
      → check_enqueue caller input db' ≡ check_enqueue caller input db
  kept_checks db db' e =
      ap (check_enqueue caller input) e ∙ same_checks caller db db'.commands db'.events

  -- After a command was queued or found, asking for it again, at any time and with any new id, returns
  -- the same command and changes nothing: neither the table nor the log of events.
  pub enqueue_command_again :
      (now later : ℕ) (id other : String) (db db' : Db) (out : DurableCommand)
      → enqueue_command valid now id caller input db ≡ ok (out, db')
      → enqueue_command valid later other caller input db' ≡ ok (out, db')
  enqueue_command_again now later id other db db' out h =
      let e = enqueue_command-Enqueue valid now id caller input db db' out h in
      elim e.effect [
        | inl (found, (again, same)) ↦
            subst (λ d. enqueue_command valid later other caller input d ≡ ok (out, d)) (sym same)
              (found_again later other db out e.asked found again)
        | inr (absent, (new, (queued, left))) ↦
            found_again later other db' out (kept_checks db db' queued.elsewhere ∙ e.asked)
              (ap (find (has_key input)) queued.rows
                ∙ find-snoc (has_key input) db.commands
                    (new_command now id input e.payload e.actor e.recipient)
                    (find-none-any (has_key input) db.commands absent)
                    (new_has_key now id e.payload e.actor e.recipient)
                ∙ ap some (sym new))
              (subst (λ c. is_repeat input e.payload e.actor e.recipient c ≡ true) (sym new)
                (new_is_repeat now id e.payload e.actor e.recipient))
      ]

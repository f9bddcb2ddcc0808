-- ===== src/Delivery/Enqueued.antt =====
-- What enqueueCommand does to the table and to the log.
use mathlib.Core.Path.{subst}
use orc_state.Base.{
  Bool, true, false, ◌≡◌, ◌≢◌, ◌⊎◌, refl, sym, ◌∙◌, ap, arith, ℕ, ◌≤◌, ◌<◌, String, List, [], ◌∷◌,
  ◌++◌, Option, none, some, ◌==◌, eq_iff, eq_refl, ok, Bool-cases, Result-cases, inl, inr, find,
  includes, any_of, ltb, or_default,
}
use orc_state.Base.Find.{find-snoc, find-snoc_ne}
use orc_state.Runs.Commit.{Distinct}
use orc_state.Delivery.Schema.{
  DurableCommand, CommandEvent, Db, command_of, has_command_id, command_queued, event_of,
  append_event,
}
use orc_state.Delivery.Queue.{
  EnqueueCommand, CommandPrincipal, check_input, check_enqueue, has_key, is_repeat, new_command,
  insert_command, repeat_or_insert, enqueue_command, Actor,
}
use orc_state.Delivery.Schema.{Session}
use orc_state.Delivery.Phases.{waiting, Within, phase}
use orc_state.Delivery.Life.{Life, done}
use orc_state.Delivery.Moves.{append_event-ok}
use orc_state.Delivery.Standing.{ids}
use orc_state.Delivery.History.{
  names_of, names_of-snoc, names_of-snoc_ne, Lived, Lived-frame, Recorded,
}

-- A command that is queued under an id that no row has.
pub record Queued (new : DurableCommand) (db db' : Db) : Type 0 where
  pub entry : CommandEvent
  pub fresh : any_of (has_command_id new.command_id) db.commands ≡ false
  pub rows : db'.commands ≡ db.commands ++ new ∷ []
  pub logged : db'.events ≡ db.events ++ entry ∷ []
  pub elsewhere : db' ≡ record db { commands = db'.commands; events = db'.events }
  pub entry_name : entry.name ≡ command_queued
  pub entry_id : entry.command_id ≡ new.command_id

module _ (valid : CommandEvent → Bool) (now : ℕ) where
  insert_command-Queued :
      (new : DurableCommand) (db db' : Db) (out : DurableCommand)
      → insert_command valid now new db ≡ ok (out, db')
      → Queued new db db' × (out ≡ new)
  unfolding insert_command
  insert_command-Queued new db db' out h =
      let rows = record db { commands = db.commands ++ new ∷ [] } in
      elim (Bool-cases (any_of (has_command_id new.command_id) db.commands)) [
        | inl taken ↦ absurd (ground arith)
        | inr fresh ↦ elim (Result-cases (append_event valid now new command_queued none rows)) [
          | inl (fault, refused) ↦ absurd (ground arith)
          | inr (after, written) ↦
              let (owner, e) =
                append_event-ok valid now new command_queued none rows after written in
              (
                record {
                  entry = event_of now owner new command_queued none;
                  fresh = fresh;
                  rows = ground (arith, e);
                  logged = ground (arith, e);
                  elsewhere = ground (arith, e);
                  entry_name = refl;
                  entry_id = refl;
                },
                ground arith,
              )
        ]
      ]

  -- Either the command stands under the key already and nothing changes, or it is queued.
  pub record Enqueue (id : String) (caller : CommandPrincipal) (input : EnqueueCommand)
      (out : DurableCommand) (db db' : Db) : Type 0 where
    pub payload : String
    pub actor : Actor
    pub recipient : Session
    pub asked : check_enqueue caller input db ≡ ok (payload, (actor, recipient))
    pub effect :
        ((find (has_key input) db.commands ≡ some out)
          × ((is_repeat input payload actor recipient out ≡ true) × (db' ≡ db)))
        ⊎ ((find (has_key input) db.commands ≡ none)
            × ((out ≡ new_command now id input payload actor recipient)
                × (Queued (new_command now id input payload actor recipient) db db'
                    × (1 ≤ or_default input.max_attempts 3))))

  positive_attempts :
      (caller : CommandPrincipal) (input : EnqueueCommand) (db : Db)
      {asked : String × (Actor × Session)}
      → check_enqueue caller input db ≡ ok asked
      → 1 ≤ or_default input.max_attempts 3
  positive_attempts caller input db {asked} h = elim (Result-cases (check_input input)) [
    | inl (fault, refused) ↦ absurd (ground arith)
    | inr (payload, good) ↦ elim (Bool-cases (ltb (or_default input.max_attempts 3) 1)) [
      | inl e ↦ absurd (ground arith)
      | inr e ↦ ground arith
    ]
  ]

  asked_effect :
      (id : String) (input : EnqueueCommand) (payload : String) (actor : Actor)
      (recipient : Session) (db db' : Db) (out : DurableCommand)
      → 1 ≤ or_default input.max_attempts 3
      → (held : Option DurableCommand) → find (has_key input) db.commands ≡ held
      → repeat_or_insert valid now input payload actor recipient id db held ≡ ok (out, db')
      → ((find (has_key input) db.commands ≡ some out)
          × ((is_repeat input payload actor recipient out ≡ true) × (db' ≡ db)))
        ⊎ ((find (has_key input) db.commands ≡ none)
            × ((out ≡ new_command now id input payload actor recipient)
                × (Queued (new_command now id input payload actor recipient) db db'
                    × (1 ≤ or_default input.max_attempts 3))))
  asked_effect id input payload actor recipient db db' out left none e h =
      let (queued, same) =
        insert_command-Queued (new_command now id input payload actor recipient) db db' out h in
      inr (e, (same, (queued, left)))
  asked_effect id input payload actor recipient db db' out left (some existing) e h =
      elim (Bool-cases (is_repeat input payload actor recipient existing)) [
        | inr other ↦ absurd (ground arith)
        | inl again ↦
            let same : existing ≡ out = ground arith in
            inl (
              e ∙ ap some same,
              (
                subst (λ c. is_repeat input payload actor recipient c ≡ true) same again,
                ground arith,
              ),
            )
      ]

  pub enqueue_command-Enqueue :
      (id : String) (caller : CommandPrincipal) (input : EnqueueCommand) (db db' : Db)
      (out : DurableCommand)
      → enqueue_command valid now id caller input db ≡ ok (out, db')
      → Enqueue id caller input out db db'
  unfolding enqueue_command
  enqueue_command-Enqueue id caller input db db' out h =
      elim (Result-cases (check_enqueue caller input db)) [
        | inl (fault, refused) ↦ absurd (ground arith)
        | inr ((payload, (actor, recipient)), asked) ↦ record {
          payload = payload;
          actor = actor;
          recipient = recipient;
          asked = asked;
          effect =
              asked_effect id input payload actor recipient db db' out
                (positive_attempts caller input db asked) (find (has_key input) db.commands) refl
                (ground arith);
        }
      ]

includes_snoc :
    (id : String) (cs : List DurableCommand) (c : DurableCommand)
    → includes (ids cs) id ≡ false
    → id ≢ c.command_id
    → includes (ids (cs ++ c ∷ [])) id ≡ false
includes_snoc id [] c h apart = ground (arith, eq_iff c.command_id id)
includes_snoc id (x ∷ xs) c h apart = ground (arith, includes_snoc id xs c)

ids-snoc :
    (cs : List DurableCommand) (c : DurableCommand)
    → any_of (has_command_id c.command_id) cs ≡ false
    → Distinct (ids cs)
    → Distinct (ids (cs ++ c ∷ []))
ids-snoc [] c fresh d = (refl, tt)
ids-snoc (x ∷ xs) c fresh d = (
  includes_snoc x.command_id xs c d.0 (λ e. ground (arith, eq_iff x.command_id c.command_id)),
  ids-snoc xs c (ground arith) d.1,
)

pub find_fresh :
    (id : String) (cs : List DurableCommand)
    → any_of (has_command_id id) cs ≡ false
    → find (has_command_id id) cs ≡ none
find_fresh id [] h = refl
find_fresh id (c ∷ cs) h = ground (arith, find_fresh id cs)

module _ {new : DurableCommand} {db db' : Db} (q : Queued new db db') where
  pub queued_self : command_of db' new.command_id ≡ some new
  queued_self =
      ap (find (has_command_id new.command_id)) q.rows
      ∙ find-snoc (has_command_id new.command_id) db.commands new q.fresh (eq_refl new.command_id)

  pub queued_other : (id : String) → id ≢ new.command_id → command_of db' id ≡ command_of db id
  queued_other id apart =
      ap (find (has_command_id id)) q.rows
      ∙ find-snoc_ne (has_command_id id) db.commands new (ground (arith, eq_iff new.command_id id))

  queued_names_ne :
      (id : String) → id ≢ new.command_id → names_of id db'.events ≡ names_of id db.events
  queued_names_ne id apart =
      ap (names_of id) q.logged
      ∙ names_of-snoc_ne id db.events q.entry (λ e. apart (sym e ∙ q.entry_id))

  queued-Lived :
      names_of new.command_id db.events ≡ []
      → phase new ≡ waiting
      → new.attempt_count < new.max_attempts
      → Lived db' new.command_id new
  queued-Lived unseen waits left = record {
    names = [];
    log =
        ap (names_of new.command_id) q.logged
        ∙ names_of-snoc new.command_id db.events q.entry q.entry_id
        ∙ ap (λ ns. ns ++ q.entry.name ∷ []) unseen
        ∙ ap (λ n. n ∷ []) q.entry_name;
    path = subst (λ p. Life new.side_effecting p waiting []) (sym waits) done;
    within = subst (λ p. Within p new.attempt_count new.max_attempts) (sym waits) left;
  }

  pub Queued-Recorded :
      names_of new.command_id db.events ≡ []
      → phase new ≡ waiting
      → new.attempt_count < new.max_attempts
      → Recorded db
      → Recorded db'
  Queued-Recorded unseen waits left r = record {
    table = subst (λ l. Distinct (ids l)) (sym q.rows) (ids-snoc db.commands new q.fresh r.table);
    lived = λ id c h. elim (Bool-cases (id == new.command_id)) [
      | inl e ↦
          let same : new.command_id ≡ id = ground (arith, eq_iff id new.command_id) in
          let is_new : new ≡ c = ground (arith, queued_self) in
          subst (λ i. Lived db' i c) same
            (subst (Lived db' new.command_id) is_new (queued-Lived unseen waits left))
      | inr e ↦
          let apart : id ≢ new.command_id = λ same. ground (arith, eq_iff id new.command_id) in
          Lived-frame db db' id c (queued_names_ne id apart)
            (r.lived id c (sym (queued_other id apart) ∙ h))
    ];
  }

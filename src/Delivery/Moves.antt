-- ===== src/Delivery/Moves.antt =====
-- Changes of the tables: one command takes an edge of the abstract life and its event is logged.
use mathlib.Core.Option
use mathlib.Core.Path.{subst}
use orc_state.Base.{
  ◌≡◌, refl, arith, String, ℕ, List, [], ◌∷◌, ◌++◌, Option, some, ◌==◌, ok, Bool, Option-cases, inl,
  inr, ◌≢◌, eq_iff, find, sym, ◌∙◌, >>=-eq-ok,
}
use orc_state.Base.Find.{find_sound}
use orc_state.Store.Schema.{update_where}
use orc_state.Delivery.Schema.{
  DurableCommand, CommandEvent, CommandEventName, Db, Run, has_command_id, command_of, event_of,
  append_event, update_command, transition, moved_to, CommandState,
}
use orc_state.Delivery.Phases.{Edge}

pub record Move (db db' : Db) : Type 0 where
  pub was : DurableCommand
  pub set : DurableCommand → DurableCommand
  pub name : CommandEventName
  pub entry : CommandEvent
  pub found : command_of db was.command_id ≡ some was
  pub edge : Edge was (set was) name
  pub keeps : (x : DurableCommand) → (set x).command_id ≡ x.command_id
  pub rows : db'.commands ≡ update_where (has_command_id was.command_id) set db.commands
  pub logged : db'.events ≡ db.events ++ entry ∷ []
  pub entry_name : entry.name ≡ name
  pub entry_id : entry.command_id ≡ was.command_id
  pub runs : db'.runs ≡ db.runs
  pub sessions : db'.sessions ≡ db.sessions

-- Any number of moves.
pub data Moves (db : Db) : Db → Type 0 where
  still : Moves db db
  then_move : {db1 db2 : Db} → Moves db db1 → Move db1 db2 → Moves db db2

pub stay : {db db' : Db} → db' ≡ db → Moves db db'
stay {db} {db'} e = subst (Moves db) (sym e) still

pub Moves-one : {db db' : Db} → Move db db' → Moves db db'
Moves-one m = then_move still m

pub Moves-trans : {db db1 db2 : Db} → Moves db db1 → Moves db1 db2 → Moves db db2
Moves-trans first still = first
Moves-trans first (then_move more m) = then_move (Moves-trans first more) m

module _ (id : String) (set : DurableCommand → DurableCommand)
    (keeps : (x : DurableCommand) → (set x).command_id ≡ x.command_id) where
  pub find-update_self :
      (cs : List DurableCommand)
      → find (has_command_id id) (update_where (has_command_id id) set cs)
        ≡ Option.map set (find (has_command_id id) cs)
  find-update_self [] = refl
  find-update_self (c ∷ cs) = ground (arith, keeps c, find-update_self cs)

  pub find-update_ne :
      (cs : List DurableCommand) (other : String)
      → other ≢ id
      → find (has_command_id other) (update_where (has_command_id id) set cs)
        ≡ find (has_command_id other) cs
  find-update_ne [] other h = refl
  find-update_ne (c ∷ cs) other h =
      ground (
        arith,
        keeps c,
        eq_iff c.command_id id,
        eq_iff c.command_id other,
        find-update_ne cs other h,
      )

pub command_of-id :
    (db : Db) (id : String) {c : DurableCommand} → command_of db id ≡ some c → c.command_id ≡ id
command_of-id db id {c} h =
    let named = find_sound (has_command_id id) db.commands {a = c} h in
    ground (arith, eq_iff c.command_id id)

-- The command that was read under an id stands under its own.
pub standing :
    (db : Db) (id : String) {c : DurableCommand}
    → command_of db id ≡ some c
    → command_of db c.command_id ≡ some c
standing db id {c} h = subst (λ x. command_of db x ≡ some c) (sym (command_of-id db id {c = c} h)) h

-- What a write of the command leaves: its move, and the row that it returns.
pub record Written (c d : DurableCommand) (db db' : Db) (out : DurableCommand) : Type 0 where
  pub move : Move db db'
  pub moved : move.was ≡ c
  pub returned : out ≡ d
  pub stands : command_of db' out.command_id ≡ some out

module _ (valid : CommandEvent → Bool) (now : ℕ) where
  pub append_event-ok :
      (c : DurableCommand) (name : CommandEventName) (reason : Option String) (db db' : Db)
      → append_event valid now c name reason db ≡ ok db'
      → (owner : Run) × (db'
          ≡ record db { events = db.events ++ event_of now owner c name reason ∷ [] })
  unfolding append_event
  append_event-ok c name reason db db' h =
      elim (Option-cases (find (λ (r : Run). r.run_id == c.run_id) db.runs)) [
        | inl e ↦ absurd (ground arith)
        | inr (owner, e) ↦ (owner, ground arith)
      ]

  logged_write :
      (id : String) (set : DurableCommand → DurableCommand) (name : CommandEventName)
      (reason : Option String) (db db' : Db) (out : DurableCommand) {new : DurableCommand}
      → command_of (record db { commands = update_where (has_command_id id) set db.commands }) id
        ≡ some new
      → update_command valid now id set name reason db ≡ ok (out, db')
      → (owner : Run) × ((db' ≡ record db {
        commands = update_where (has_command_id id) set db.commands;
        events = db.events ++ event_of now owner new name reason ∷ [];
      })
          × (out ≡ new))
  unfolding update_command
  logged_write id set name reason db db' out {new} self h =
      let written = record db { commands = update_where (has_command_id id) set db.commands } in
      let (after, appended, last) =
        >>=-eq-ok (append_event valid now new name reason written) _
          (rw (self, update_command) at h) in
      let (owner, e) = append_event-ok new name reason written after appended in
      (owner, (ground (arith, e), ground arith))

  -- The shared write makes its edge's move, and returns the row it wrote.
  pub update_command-Move :
      (id : String) (set : DurableCommand → DurableCommand) (name : CommandEventName)
      (reason : Option String) (db db' : Db) (out : DurableCommand) {was : DurableCommand}
      → ((x : DurableCommand) → (set x).command_id ≡ x.command_id)
      → command_of db id ≡ some was
      → Edge was (set was) name
      → update_command valid now id set name reason db ≡ ok (out, db')
      → Written was (set was) db db' out
  unfolding update_command
  update_command-Move id set name reason db db' out {was} keeps found edge h =
      let written = record db { commands = update_where (has_command_id id) set db.commands } in
      let self : command_of written id ≡ some (set was) =
        ground (arith, find-update_self id set keeps db.commands) in
      let (owner, (logged, same)) = logged_write id set name reason db db' out self h in
      let named = command_of-id db id {c = was} found in
      let kept : command_of db' (set was).command_id ≡ some (set was) =
        subst (λ x. command_of db' x ≡ some (set was)) (sym (keeps was ∙ named))
          (ground (arith, logged, self)) in
      record {
        move = record {
          was = was;
          set = set;
          name = name;
          entry = event_of now owner (set was) name reason;
          found = standing db id {c = was} found;
          edge = edge;
          keeps = keeps;
          rows = ground (arith, logged, named);
          logged = ground (arith, logged);
          entry_name = refl;
          entry_id = keeps was;
          runs = ground (arith, logged);
          sessions = ground (arith, logged);
        };
        moved = refl;
        returned = same;
        stands = subst (λ x. command_of db' x.command_id ≡ some x) (sym same) kept;
      }

  pub transition-Move :
      (c : DurableCommand) (state : CommandState) (name : CommandEventName) (reason : Option String)
      (db db' : Db) (out : DurableCommand)
      → command_of db c.command_id ≡ some c
      → Edge c (moved_to now state reason c) name
      → transition valid now c state name reason db ≡ ok (out, db')
      → Written c (moved_to now state reason c) db db' out
  unfolding transition
  transition-Move c state name reason db db' out found edge h =
      update_command-Move c.command_id (moved_to now state reason) name reason db db' out
        (λ x. refl) found edge h

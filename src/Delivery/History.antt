-- ===== src/Delivery/History.antt =====
-- What the log of commands says of a command: the path of its life so far.
use mathlib.Core.Path.{subst}
use orc_state.Base.{
  ◌≡◌, ◌≢◌, sym, ◌∙◌, ap, arith, String, List, [], ◌∷◌, ◌++◌, map, some, filter_by, ◌==◌, eq_iff,
  Bool-cases, inl, inr, find,
}
use orc_state.Runs.Commit.{Distinct}
use orc_state.Delivery.Schema.{
  DurableCommand, CommandEvent, CommandEventName, Db, command_of, has_command_id, command_queued,
}
use orc_state.Delivery.Phases.{waiting, Within, phase, Edge}
use orc_state.Delivery.Life.{Life, Life-snoc}
use orc_state.Delivery.Moves.{Move, Moves, still, then_move}
use orc_state.Delivery.Standing.{IsTable, ids, Move-IsTable, Move-self, Move-other}

-- The names of the events of a command, oldest first.
abbrev pub names_of : String → List CommandEvent → List CommandEventName
names_of id events = map (λ (e : CommandEvent). e.name) (filter_by (λ e. e.command_id == id) events)

pub names_of-snoc :
    (id : String) (events : List CommandEvent) (e : CommandEvent)
    → e.command_id ≡ id
    → names_of id (events ++ e ∷ []) ≡ names_of id events ++ e.name ∷ []
names_of-snoc id [] e h = ground (arith, eq_iff e.command_id id)
names_of-snoc id (x ∷ xs) e h = ground (arith, names_of-snoc id xs e h)

pub names_of-snoc_ne :
    (id : String) (events : List CommandEvent) (e : CommandEvent)
    → e.command_id ≢ id
    → names_of id (events ++ e ∷ []) ≡ names_of id events
names_of-snoc_ne id [] e h = ground (arith, eq_iff e.command_id id)
names_of-snoc_ne id (x ∷ xs) e h = ground (arith, names_of-snoc_ne id xs e h)

-- The log of a command is that it was queued, and then a path to the phase it is in; its attempts
-- are within their limit.
pub record Lived (db : Db) (id : String) (c : DurableCommand) : Type 0 where
  pub names : List CommandEventName
  pub log : names_of id db.events ≡ command_queued ∷ names
  pub path : Life c.side_effecting (phase c) waiting names
  pub within : Within (phase c) c.attempt_count c.max_attempts

-- The log agrees with the table.
pub record Recorded (db : Db) : Type 0 where
  pub table : IsTable db
  pub lived : (id : String) (c : DurableCommand) → command_of db id ≡ some c → Lived db id c

pub Lived-frame :
    (db db' : Db) (id : String) (c : DurableCommand)
    → names_of id db'.events ≡ names_of id db.events
    → Lived db id c
    → Lived db' id c
Lived-frame db db' id c same l = record {
  names = l.names;
  log = same ∙ l.log;
  path = l.path;
  within = l.within;
}

Lived-Edge :
    (db db' : Db) (id : String) (c d : DurableCommand) {name : CommandEventName}
    → names_of id db'.events ≡ names_of id db.events ++ name ∷ []
    → Edge c d name
    → Lived db id c
    → Lived db' id d
Lived-Edge db db' id c d {name} logged edge l = record {
  names = l.names ++ name ∷ [];
  log = logged ∙ ap (λ ns. ns ++ name ∷ []) l.log;
  path =
      subst (λ effects. Life effects (phase d) waiting (l.names ++ name ∷ []))
        (sym edge.side_effecting) (Life-snoc l.path edge.progress);
  within = edge.within l.within;
}

module _ {db db' : Db} (m : Move db db') where
  names_of-Move_self :
      names_of m.was.command_id db'.events ≡ names_of m.was.command_id db.events ++ m.name ∷ []
  names_of-Move_self =
      ap (names_of m.was.command_id) m.logged
      ∙ names_of-snoc m.was.command_id db.events m.entry m.entry_id
      ∙ ap (λ n. names_of m.was.command_id db.events ++ n ∷ []) m.entry_name

  names_of-Move_ne :
      (id : String) → id ≢ m.was.command_id → names_of id db'.events ≡ names_of id db.events
  names_of-Move_ne id apart =
      ap (names_of id) m.logged
      ∙ names_of-snoc_ne id db.events m.entry (λ e. apart (sym e ∙ m.entry_id))

  moved-Lived :
      Recorded db → (id : String) (c : DurableCommand) → command_of db' id ≡ some c → Lived db' id c
  moved-Lived r id c h = elim (Bool-cases (id == m.was.command_id)) [
    | inl e ↦
        let same : m.was.command_id ≡ id = ground (arith, eq_iff id m.was.command_id) in
        let new : m.set m.was ≡ c = ground (arith, Move-self m) in
        subst (λ i. Lived db' i c) same
          (subst (Lived db' m.was.command_id) new (
            Lived-Edge db db' m.was.command_id m.was (m.set m.was) names_of-Move_self m.edge
              (r.lived m.was.command_id m.was m.found)))
    | inr e ↦
        let apart : id ≢ m.was.command_id = λ same. ground (arith, eq_iff id m.was.command_id) in
        Lived-frame db db' id c (names_of-Move_ne id apart)
          (r.lived id c (sym (Move-other m id apart) ∙ h))
  ]

  pub Move-Recorded : Recorded db → Recorded db'
  Move-Recorded r = record { table = Move-IsTable m r.table; lived = moved-Lived r }

pub Moves-Recorded : {db db' : Db} → Moves db db' → Recorded db → Recorded db'
Moves-Recorded still r = r
Moves-Recorded (then_move first m) r = Move-Recorded m (Moves-Recorded first r)

-- The record is about commands and their events alone.
pub Recorded-same :
    {db db' : Db} → db'.commands ≡ db.commands → db'.events ≡ db.events → Recorded db → Recorded db'
Recorded-same {db} {db'} commands events r = record {
  table = subst (λ l. Distinct (ids l)) (sym commands) r.table;
  lived = λ id c h.
      Lived-frame db db' id c (ap (names_of id) events)
        (r.lived id c (ap (find (has_command_id id)) (sym commands) ∙ h));
}

-- ===== src/Delivery/Orphans.antt =====
-- What the deletion of runs and of sessions does to commands: the foreign keys of lib/runtimeSchema.ts.
use mathlib.Core.Option
use mathlib.Core.Path.{subst}
use orc_state.Base.{
  Bool, false, ◌≡◌, refl, sym, arith, String, List, [], ◌∷◌, map, none, some, filter_by, find,
  includes, eq_iff, if◌then◌else◌, Option-cases, inl, inr,
}
use orc_state.Runs.Commit.{Distinct}
use orc_state.Delivery.Schema.{
  DurableCommand, Db, Run, Session, has_command_id, command_of, has_run, unlink, replace_parents,
}
use orc_state.Delivery.Standing.{ids, IsTable, Distinct-filter_by, includes-filter_by}
use orc_state.Delivery.History.{Lived, Recorded}

find-absent :
    (id : String) (cs : List DurableCommand)
    → includes (ids cs) id ≡ false
    → find (has_command_id id) cs ≡ none
find-absent id [] h = refl
find-absent id (c ∷ cs) h = ground (arith, find-absent id cs)

absent-find :
    (id : String) (cs : List DurableCommand)
    → find (has_command_id id) cs ≡ none
    → includes (ids cs) id ≡ false
absent-find id [] h = refl
absent-find id (c ∷ cs) h = ground (arith, absent-find id cs)

find-filter_by :
    (p : DurableCommand → Bool) (id : String) (cs : List DurableCommand) {c : DurableCommand}
    → Distinct (ids cs)
    → find (has_command_id id) cs ≡ some c
    → find (has_command_id id) (filter_by p cs) ≡ (if p c then some c else none)
find-filter_by p id [] d h = absurd (ground arith)
find-filter_by p id (x ∷ xs) {c} d h = ground (
  arith,
  eq_iff x.command_id id,
  find-filter_by p id xs {c = c} d.1,
  d.0,
  find-absent id (filter_by p xs),
  includes-filter_by p xs id,
)

find-unlink :
    (sessions : List Session) (id : String) (cs : List DurableCommand)
    → find (has_command_id id) (map (unlink sessions) cs)
      ≡ Option.map (unlink sessions) (find (has_command_id id) cs)
find-unlink sessions id [] = refl
find-unlink sessions id (c ∷ cs) = ground (arith, find-unlink sessions id cs)

ids-unlink :
    (sessions : List Session) (cs : List DurableCommand) → ids (map (unlink sessions) cs) ≡ ids cs
ids-unlink sessions [] = refl
ids-unlink sessions (c ∷ cs) = ground (arith, ids-unlink sessions cs)

module _ (runs : List Run) (sessions : List Session) (db : Db) (table : IsTable db) where
  -- The row under an id, when the transaction is over.
  pub command_of-replace_parents :
      (id : String) {c : DurableCommand}
      → command_of db id ≡ some c
      → command_of (replace_parents runs sessions db) id
        ≡ (if has_run runs c then some (unlink sessions c) else none)
  command_of-replace_parents id {c} h = ground (
    arith,
    find-unlink sessions id (filter_by (has_run runs) db.commands),
    find-filter_by (has_run runs) id db.commands {c = c} table h,
  )

  pub absent-replace_parents :
      (id : String)
      → command_of db id ≡ none
      → command_of (replace_parents runs sessions db) id ≡ none
  absent-replace_parents id h = ground (
    arith,
    find-unlink sessions id (filter_by (has_run runs) db.commands),
    find-absent id (filter_by (has_run runs) db.commands),
    includes-filter_by (has_run runs) db.commands id,
    absent-find id db.commands,
  )

  unlinked-Lived :
      (id : String) (c : DurableCommand)
      → Lived db id c
      → Lived (replace_parents runs sessions db) id (unlink sessions c)
  unlinked-Lived id c l = record { names = l.names; log = l.log; path = l.path; within = l.within }

  pub replace_parents-Recorded : Recorded db → Recorded (replace_parents runs sessions db)
  replace_parents-Recorded r = record {
    table =
        subst Distinct (sym (ids-unlink sessions (filter_by (has_run runs) db.commands)))
          (Distinct-filter_by (has_run runs) db.commands table);
    lived = λ id c h. elim (Option-cases (command_of db id)) [
      | inl missing ↦ absurd (ground (arith, absent-replace_parents id missing))
      | inr (old, found) ↦
          let same : unlink sessions old ≡ c =
            ground (arith, command_of-replace_parents id {c = old} found) in
          subst (Lived (replace_parents runs sessions db) id) same
            (unlinked-Lived id old (r.lived id old found))
    ];
  }

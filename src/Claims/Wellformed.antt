-- ===== src/Claims/Wellformed.antt =====
-- The operations on claims keep the table well formed and change one claim at most.
use orc_state.Base.{
  Bool, true, List, [], ◌∷◌, ◌++◌, some, String, ◌+◌, ◌≡◌, ◌≢◌, refl, arith, eq_iff, eq_refl, All,
  find, modify_first, length, ok, >>=-eq-ok, ◌∙◌,
}
use mathlib.Core.Path.{subst}
use orc_state.Base.Find.{find-modify_first}
use orc_state.Model.Claim.{Claim}
use orc_state.Runs.{Event, RunsDb, commit_claims}
use orc_state.Runs.Commit.{sequenced, commit_claims-exact}
use orc_state.Runs.Update.{
  Follows, IsTable, RowsOf-follow, run_ids-follow, AllFollow-IsTable, AllFollow-modify,
  commit_claims-in_place,
}
use orc_state.Claims.{has_run_id, claim_of, save}

-- `new` has replaced `old`, in a table that is still well formed, and nothing else changed.
pub record Saved (old new : Claim) (db db' : RunsDb) : Type 0 where
  pub found : claim_of db old.run_id ≡ some old
  pub stored : claim_of db' old.run_id ≡ some new
  pub frame : (other : String) → other ≢ old.run_id → claim_of db' other ≡ claim_of db other
  pub is_table : IsTable db'.claims

frame_modify :
    (id other : String) (new : Claim) (claims : List Claim)
    → new.run_id ≡ id
    → other ≢ id
    → find (has_run_id other) (modify_first (has_run_id id) (λ _. new) claims)
      ≡ find (has_run_id other) claims
frame_modify id other new [] e ne = refl
frame_modify id other new (c ∷ cs) e ne = ground (
  arith,
  eq_iff c.run_id id,
  eq_iff c.run_id other,
  eq_iff new.run_id other,
  frame_modify id other new cs e ne,
)

module _ (valid : Event → Bool) where
  pub save-Saved :
      (old new : Claim) (events : List Event) (db db' : RunsDb) {saved : Claim}
      → IsTable db.claims
      → claim_of db old.run_id ≡ some old
      → Follows new old
      → save valid new events db ≡ ok (saved, db')
      → Saved old new db db'
  unfolding save
  save-Saved old new events db db' t found f h =
      let claims = modify_first (has_run_id new.run_id) (λ _. new) db.claims in
      let here : find (has_run_id new.run_id) db.claims ≡ some old = rw f.run_id found in
      let follow = AllFollow-modify (has_run_id new.run_id) new db.claims here f in
      let (out, committed, rest) = >>=-eq-ok (commit_claims valid claims events db) _ h in
      let (written, log, good) =
        commit_claims-exact valid claims events db out
          (rw (run_ids-follow claims db.claims follow) t.distinct)
          (RowsOf-follow claims db.claims follow) committed in
      let same : db'.claims ≡ claims = ground (arith, written, rest) in
      record {
        found = found;
        stored = rw same (
            subst (λ id. find (has_run_id id) claims ≡ some new) f.run_id
              (find-modify_first (has_run_id new.run_id) (λ _. new) db.claims here
                (eq_refl new.run_id)));
        frame = λ other ne.
            rw same (frame_modify new.run_id other new db.claims refl (λ e. ne (e ∙ f.run_id)));
        is_table = rw same (AllFollow-IsTable claims db.claims follow t);
      }

  -- A change in place that keeps the run and the task and does not revive the claim succeeds if its
  -- events are valid.
  pub save_total :
      (old new : Claim) (events : List Event) (db : RunsDb)
      → IsTable db.claims
      → claim_of db old.run_id ≡ some old
      → Follows new old
      → All (λ e. valid e ≡ true) events
      → save valid new events db
        ≡ ok (
          new,
          record {
            claims = modify_first (has_run_id new.run_id) (λ _. new) db.claims;
            events = db.events ++ sequenced db.last_seq events;
            last_seq = db.last_seq + length events;
          },
        )
  unfolding save
  save_total old new events db t found f good =
      let claims = modify_first (has_run_id new.run_id) (λ _. new) db.claims in
      let here : find (has_run_id new.run_id) db.claims ≡ some old = rw f.run_id found in
      ground (
        arith,
        commit_claims-in_place valid claims events db t
            (AllFollow-modify (has_run_id new.run_id) new db.claims here f) good,
      )

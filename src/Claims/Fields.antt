-- ===== src/Claims/Fields.antt =====
-- The nine operations that record facts on a claim: none of them changes the run's state, task or
-- agent, or another claim.
use mathlib.Core.Option
use orc_state.Base.{
  Bool, List, [], Option, none, some, String, ℕ, ◌≡◌, ◌≢◌, refl, arith, eq_iff, inl, inr,
  Option-cases, ok, sym, ap, ◌∙◌, is_some, or_default, ltb, if◌then◌else◌,
}
use mathlib.Core.Path.{subst}
use orc_state.Base.Find.{find_sound}
use orc_state.Base.Time.{Stamp, iso}
use orc_state.Base.Int.{ℤ, add_clamped}
use orc_state.Model.Claim.{Claim, ClaimState, FinalizationState, InputState, is_awaiting}
use orc_state.Runs.{Event, RunsDb}
use orc_state.Runs.Update.{Follows, IsTable}
use orc_state.Claims.{
  has_run_id, claim_of, save, set_run_finalization_state, set_run_input_state,
  set_run_session_start_retry_state, set_escalation_notified, set_pr_ref, set_pr_created_at,
}
use orc_state.Claims.Wellformed.{save-Saved}

-- What identifies a run and says where it stands.
abbrev Identity : Type 0
Identity = String × String × ClaimState × Stamp

abbrev identity : Claim → Identity
identity c = (c.task_ref, c.agent_id, c.state, c.claimed_at)

-- The change concerns this run alone, and not its identity.
pub record Touches (run_id : String) (db db' : RunsDb) : Type 0 where
  pub is_table : IsTable db'.claims
  pub frame : (other : String) → other ≢ run_id → claim_of db' other ≡ claim_of db other
  pub same_identity :
      Option.map identity (claim_of db' run_id) ≡ Option.map identity (claim_of db run_id)

pub claim_of-run_id :
    (db : RunsDb) (run_id : String) {c : Claim} → claim_of db run_id ≡ some c → c.run_id ≡ run_id
claim_of-run_id db run_id {c} h =
    (eq_iff c.run_id run_id).0 (find_sound (has_run_id run_id) db.claims h)

pub Touches-self : (run_id : String) (db : RunsDb) → IsTable db.claims → Touches run_id db db
Touches-self run_id db t = record { is_table = t; frame = λ other ne. refl; same_identity = refl }

module _ (valid : Event → Bool) where
  -- A saved claim that keeps its run and its identity.
  pub saved-Touches :
      (run_id : String) (old new : Claim) (events : List Event) (db db' : RunsDb) (saved : Claim)
      → IsTable db.claims
      → claim_of db run_id ≡ some old
      → new.run_id ≡ old.run_id
      → identity new ≡ identity old
      → save valid new events db ≡ ok (saved, db')
      → Touches run_id db db'
  saved-Touches run_id old new events db db' saved t found same_run same h =
      let at = claim_of-run_id db run_id found in
      let follows : Follows new old = record {
        run_id = same_run;
        task_ref = ap (λ (i : Identity). i.0) same;
        active = λ a. ground (arith, ap (λ (i : Identity). i.2) same);
      } in
      let s =
        save-Saved valid old new events db db' t
          (subst (λ id. claim_of db id ≡ some old) (sym at) found) follows h in
      record {
        is_table = s.is_table;
        frame = λ other ne. s.frame other (λ e. ne (e ∙ at));
        same_identity = ground (arith, s.stored, at, found, same);
      }

  pub set_pr_ref-Touches :
      (run_id pr_ref : String) (db db' : RunsDb) (c : Claim)
      → IsTable db.claims
      → set_pr_ref valid run_id pr_ref db ≡ ok (c, db')
      → Touches run_id db db'
  unfolding set_pr_ref
  set_pr_ref-Touches run_id pr_ref db db' c t h = elim (Option-cases (claim_of db run_id)) [
    | inl e ↦ absurd (ground arith)
    | inr (old, e) ↦
        saved-Touches run_id old (record old { pr_ref = some pr_ref }) [] db db' c t e refl refl
          (ground arith)
  ]

  pub set_pr_created_at-Touches :
      (run_id : String) (created_at : Stamp) (seq : Option ℕ) (db db' : RunsDb) (c : Claim)
      → IsTable db.claims
      → set_pr_created_at valid run_id created_at seq db ≡ ok (c, db')
      → Touches run_id db db'
  unfolding set_pr_created_at
  set_pr_created_at-Touches run_id created_at seq db db' c t h =
      elim (Option-cases (claim_of db run_id)) [
        | inl e ↦ absurd (ground arith)
        | inr (old, e) ↦
            saved-Touches run_id old
              (record old {
                pr_created_at = some created_at;
                pr_initial_work_complete_seq =
                    if is_some seq then seq else old.pr_initial_work_complete_seq;
              })
              [] db db' c t e refl refl (ground arith)
      ]

  pub set_escalation_notified-Touches :
      (run_id : String) (now : ℕ) (db db' : RunsDb) (c : Claim)
      → IsTable db.claims
      → set_escalation_notified valid run_id now db ≡ ok (c, db')
      → Touches run_id db db'
  unfolding set_escalation_notified
  set_escalation_notified-Touches run_id now db db' c t h =
      elim (Option-cases (claim_of db run_id)) [
        | inl e ↦ absurd (ground arith)
        | inr (old, e) ↦
            saved-Touches run_id old (record old { escalation_notified_at = some (iso now) }) [] db
              db' c t e refl refl (ground arith)
      ]

  pub set_run_finalization_state-Touches :
      (run_id agent_id : String) (state : Option FinalizationState) (delta : ℤ)
      (reason : Option String) (db db' : RunsDb) (c : Claim)
      → IsTable db.claims
      → set_run_finalization_state valid run_id agent_id state delta reason db ≡ ok (c, db')
      → Touches run_id db db'
  unfolding set_run_finalization_state
  set_run_finalization_state-Touches run_id agent_id state delta reason db db' c t h =
      elim (Option-cases (claim_of db run_id)) [
        | inl e ↦ absurd (ground arith)
        | inr (old, e) ↦
            saved-Touches run_id old
              (record old {
                finalization_state = state;
                finalization_retry_count =
                    some (add_clamped (or_default old.finalization_retry_count 0) delta);
                finalization_blocked_reason = reason;
              })
              [] db db' c t e refl refl (ground arith)
      ]

  pub set_run_input_state-Touches :
      (run_id agent_id : String) (state : Option InputState) (at : Option Stamp) (now : ℕ)
      (db db' : RunsDb) (c : Claim)
      → IsTable db.claims
      → set_run_input_state valid run_id agent_id state at now db ≡ ok (c, db')
      → Touches run_id db db'
  unfolding set_run_input_state
  set_run_input_state-Touches run_id agent_id state at now db db' c t h =
      elim (Option-cases (claim_of db run_id)) [
        | inl e ↦ absurd (ground arith)
        | inr (old, e) ↦
            saved-Touches run_id old
              (record old {
                input_state = state;
                input_requested_at =
                    if is_awaiting state then some (or_default at (iso now)) else none;
              })
              [] db db' c t e refl refl (ground arith)
      ]

  pub set_run_session_start_retry_state-Touches :
      (run_id agent_id : String) (count : ℕ) (next : Option Stamp) (last_error : Option String)
      (db db' : RunsDb) (c : Claim)
      → IsTable db.claims
      → set_run_session_start_retry_state valid run_id agent_id count next last_error db
        ≡ ok (c, db')
      → Touches run_id db db'
  unfolding set_run_session_start_retry_state
  set_run_session_start_retry_state-Touches run_id agent_id count next last_error db db' c t h =
      elim (Option-cases (claim_of db run_id)) [
        | inl e ↦ absurd (ground arith)
        | inr (old, e) ↦
            saved-Touches run_id old
              (record old {
                session_start_retry_count = some count;
                session_start_retry_next_at = if ltb 0 count then next else none;
                session_start_last_error = if ltb 0 count then last_error else none;
              })
              [] db db' c t e refl refl (ground arith)
      ]

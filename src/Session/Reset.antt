-- ===== src/Session/Reset.antt =====
-- After a reset no claim is active.
use orc_state.Base.{
  Bool, true, List, [], ◌∷◌, ◌++◌, ℕ, ◌+◌, ◌≡◌, refl, arith, map, filter_by, length, All, ok, some,
}
use orc_state.Base.Time.{iso}
use orc_state.Model.Claim.{Claim, ClaimState}
use orc_state.Runs.{Event, RunsDb, human_actor, run_failed, failure_payload}
use orc_state.Runs.Commit.{sequenced}
use orc_state.Runs.Update.{Follows, AllFollow, IsTable, commit_claims-in_place}
use orc_state.Session.{reset_claim, reset_events, was_active, reset_claims_for_session}

reset_claim-Follows : (now : ℕ) (c : Claim) → Follows (reset_claim now c) c
reset_claim-Follows now c = record {
  run_id = ground arith;
  task_ref = ground arith;
  active = λ a. ground arith;
}

reset_claims-AllFollow : (now : ℕ) (cs : List Claim) → AllFollow (map (reset_claim now) cs) cs
reset_claims-AllFollow now [] = tt
reset_claims-AllFollow now (c ∷ cs) = (reset_claim-Follows now c, reset_claims-AllFollow now cs)

abbrev pub failed_now : ℕ → Claim → Claim
failed_now now c = record c {
  state = ClaimState.failed;
  failure_reason = some "session_reset";
  finished_at = some (iso now);
}

-- What the reset makes of a claim: one that was claimed or in progress has failed and is otherwise the
-- same, one that was done or had failed is the same.
pub record Reset (now : ℕ) (after before : Claim) : Type 0 where
  pub claimed : before.state ≡ ClaimState.claimed → after ≡ failed_now now before
  pub started : before.state ≡ ClaimState.in_progress → after ≡ failed_now now before
  pub done : before.state ≡ ClaimState.done → after ≡ before
  pub failed : before.state ≡ ClaimState.failed → after ≡ before

abbrev pub AllReset : ℕ → List Claim → List Claim → Type 0
AllReset now [] [] = Unit
AllReset now (new ∷ news) (old ∷ olds) = Reset now new old × AllReset now news olds
AllReset now _ _ = ⊥

reset_claim-Reset : (now : ℕ) (c : Claim) → Reset now (reset_claim now c) c
reset_claim-Reset now c = record {
  claimed = λ e. ground arith;
  started = λ e. ground arith;
  done = λ e. ground arith;
  failed = λ e. ground arith;
}

reset_claims-AllReset : (now : ℕ) (cs : List Claim) → AllReset now (map (reset_claim now) cs) cs
reset_claims-AllReset now [] = tt
reset_claims-AllReset now (c ∷ cs) = (reset_claim-Reset now c, reset_claims-AllReset now cs)

-- The failure events of the claims that were claimed or in progress.
abbrev failure : ℕ → Claim → Event
failure now c = record {
  ts = iso now;
  name = run_failed;
  actor_type = human_actor;
  actor_id = "human";
  run_id = c.run_id;
  task_ref = c.task_ref;
  agent_id = some c.agent_id;
  payload = failure_payload (some "session_reset") (some "ERR_SESSION_RESET") "requeue";
}

abbrev failure_for : ℕ → Claim → ClaimState → List Event
failure_for now c ClaimState.claimed = failure now c ∷ []
failure_for now c ClaimState.in_progress = failure now c ∷ []
failure_for now c _ = []

abbrev pub failures : ℕ → List Claim → List Event
failures now [] = []
failures now (c ∷ cs) = failure_for now c c.state ++ failures now cs

reset_events-failures : (now : ℕ) (cs : List Claim) → reset_events now cs ≡ failures now cs
reset_events-failures now [] = refl
reset_events-failures now (c ∷ cs) = ground (arith, reset_events-failures now cs)

active-failures :
    (now : ℕ) (cs : List Claim) → length (filter_by was_active cs) ≡ length (failures now cs)
active-failures now [] = refl
active-failures now (c ∷ cs) = ground (arith, active-failures now cs)

-- If the table is well formed and the failure events are valid, the reset succeeds and counts the
-- claims that were active. Afterwards the table has the same rows in the same order: one that was
-- claimed or in progress has failed, for the reason of the reset and at its instant, and one that was
-- over is as it was. The log has one failure event more for each of the active claims.
pub reset_claims_for_session_total :
    (valid : Event → Bool) (now : ℕ) (db : RunsDb)
    → IsTable db.claims
    → All (λ e. valid e ≡ true) (failures now db.claims)
    → (db' : RunsDb) × (reset_claims_for_session valid now db
        ≡ ok (length (failures now db.claims), db'))
      × AllReset now db'.claims db.claims
      × (db'.events ≡ db.events ++ sequenced db.last_seq (failures now db.claims))
unfolding reset_claims_for_session
reset_claims_for_session_total valid now db t good =
    let claims = map (reset_claim now) db.claims in
    let events = failures now db.claims in
    let same = reset_events-failures now db.claims in
    (
      record {
        claims = claims;
        events = db.events ++ sequenced db.last_seq events;
        last_seq = db.last_seq + length events;
      },
      ground (
        arith,
        same,
        active-failures now db.claims,
        commit_claims-in_place valid claims events db t (reset_claims-AllFollow now db.claims) good,
      ),
      reset_claims-AllReset now db.claims,
      refl,
    )

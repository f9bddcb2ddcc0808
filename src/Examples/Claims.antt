-- ===== src/Examples/Claims.antt =====
-- lib/runStore.ts, lib/claimStateManager.ts and lib/claimManager.ts on a table of two claims, with a
-- validator that accepts every event.
use orc_state.Base.{
  Bool, true, List, [], ◌∷◌, ◌++◌, none, some, String, ◌+◌, ◌≡◌, ◌≢◌, arith, refl, All, Result, ok,
  err,
}
use orc_state.Base.Time.{iso}
use orc_state.Model.Claim.{Claim, ClaimState}
use orc_state.Runs.{
  Event, RunsDb, ClaimFault, lease_expired, commit_claims, agent_actor, task_envelope_sent,
  empty_payload,
}
use orc_state.Session.{reset_claims_for_session}
use orc_state.Session.Reset.{AllReset, failures, reset_claims_for_session_total}
use orc_state.Runs.Commit.{commit_claims-exact, sequenced}
use orc_state.Runs.Update.{IsTable, commit_claims-in_place}
use orc_state.Runs.{heartbeat, lease_payload}
use orc_state.Claims.{claim_of, claim_event, heartbeat_run, renew_lease_only, save}
use orc_state.Claims.Fields.{Touches}
use orc_state.Claims.Lease.{beat, ClaimStep-Touches, heartbeat_run_total, expired_lease_stays}

abbrev claim_row : String → String → ClaimState → Claim
claim_row run_id task_ref state = record {
  run_id = run_id;
  task_ref = task_ref;
  agent_id = "alice";
  state = state;
  claimed_at = iso 1;
  lease_expires_at = iso 100;
  task_envelope_sent_at = none;
  last_heartbeat_at = none;
  started_at = some (iso 2);
  finished_at = none;
  failure_reason = none;
  finalization_state = none;
  finalization_retry_count = none;
  finalization_blocked_reason = none;
  input_state = none;
  input_requested_at = none;
  session_start_retry_count = none;
  session_start_retry_next_at = none;
  session_start_last_error = none;
  escalation_notified_at = none;
  pr_ref = none;
  pr_created_at = none;
  pr_initial_work_complete_seq = none;
  task_spec_snapshot = none;
}

abbrev pub running : Claim
running = claim_row "run1" "a" ClaimState.in_progress

abbrev over : Claim
over = claim_row "run0" "a" ClaimState.failed

abbrev pub runs_db : RunsDb
runs_db = record { claims = over ∷ running ∷ []; events = []; last_seq = 7 }

abbrev pub accept : Event → Bool
accept event = true

abbrev pub runs_db-IsTable : IsTable runs_db.claims
runs_db-IsTable = record { distinct = (refl, (refl, tt)); consistent = (refl, (refl, tt)) }

abbrev sent : Event
sent = claim_event (iso 5) task_envelope_sent agent_actor "alice" running empty_payload

abbrev runs_of : Result ClaimFault RunsDb → RunsDb
runs_of (ok db) = db
runs_of (err e) = runs_db

-- A third run is committed with an event.
abbrev three_claims : List Claim
three_claims = over ∷ running ∷ claim_row "run2" "b" ClaimState.claimed ∷ []

abbrev three_runs : RunsDb
unfolding commit_claims
three_runs = runs_of (commit_claims accept three_claims (sent ∷ []) runs_db)

commit_claims-exact_example :
    (three_runs.claims ≡ three_claims)
    × (three_runs.events ≡ [] ++ sequenced 7 (sent ∷ []))
    × All (λ e. accept e ≡ true) (sent ∷ [])
unfolding commit_claims
commit_claims-exact_example =
    commit_claims-exact accept three_claims (sent ∷ []) runs_db three_runs
      (refl, (refl, (refl, tt))) (refl, (refl, tt)) refl

-- The running claim moves on to finalization.
abbrev claim_db : Result ClaimFault (Claim × RunsDb) → Claim × RunsDb
claim_db (ok saved) = saved
claim_db (err e) = (running, runs_db)

ClaimStep-Touches_example :
    Touches "run1" runs_db
      (claim_db (heartbeat_run accept "run1" "alice" 50 true (iso 60) runs_db)).1
unfolding heartbeat_run save commit_claims
ClaimStep-Touches_example =
    ClaimStep-Touches accept "run1" runs_db
      (claim_db (heartbeat_run accept "run1" "alice" 50 true (iso 60) runs_db)).1 runs_db-IsTable
      (beat "alice" 50 true (iso 60)
        (claim_db (heartbeat_run accept "run1" "alice" 50 true (iso 60) runs_db)).0 refl)

heartbeat_run_total_example :
    (db' : RunsDb) × (heartbeat_run accept "run1" "alice" 50 true (iso 60) runs_db
      ≡ ok (
        record running { last_heartbeat_at = some (iso 60); lease_expires_at = iso (60 + 50) },
        db',
      ))
    × (claim_of db' "run1"
        ≡ some (record running {
          last_heartbeat_at = some (iso 60);
          lease_expires_at = iso (60 + 50);
        }))
    × ((other : String) → other ≢ "run1" → claim_of db' other ≡ claim_of runs_db other)
    × (db'.events
        ≡ []
          ++ sequenced 7 (
              claim_event
                (iso 60)
                heartbeat
                agent_actor
                "alice"
                running
                (lease_payload (iso (60 + 50)))
              ∷ []))
heartbeat_run_total_example =
    heartbeat_run_total accept "run1" 50 60 runs_db {old = running} runs_db-IsTable refl refl true
      100 refl (omega arith) refl

expired_lease_stays_example :
    (heartbeat_run accept "run1" "alice" 50 true (iso 160) runs_db ≡ err lease_expired)
    × (renew_lease_only accept "run1" 50 160 runs_db ≡ ok runs_db)
expired_lease_stays_example =
    expired_lease_stays accept "run1" 50 160 runs_db {old = running} runs_db-IsTable refl refl true
      100 refl (omega arith)

-- The running claim has failed.
abbrev stopped : List Claim
stopped = over ∷ record running { state = ClaimState.failed } ∷ []

commit_claims-in_place_example :
    commit_claims accept stopped (sent ∷ []) runs_db
    ≡ ok (record { claims = stopped; events = [] ++ sequenced 7 (sent ∷ []); last_seq = 8 })
commit_claims-in_place_example =
    commit_claims-in_place accept stopped (sent ∷ []) runs_db runs_db-IsTable
      (
        record { run_id = refl; task_ref = refl; active = λ a. a },
        (record { run_id = refl; task_ref = refl; active = λ a. refl }, tt),
      )
      (refl, tt)

reset_claims_for_session_total_example :
    (db' : RunsDb) × (reset_claims_for_session accept 90 runs_db ≡ ok (1, db'))
    × AllReset 90 db'.claims runs_db.claims
    × (db'.events ≡ [] ++ sequenced 7 (failures 90 (over ∷ running ∷ [])))
reset_claims_for_session_total_example =
    reset_claims_for_session_total accept 90 runs_db runs_db-IsTable (refl, tt)

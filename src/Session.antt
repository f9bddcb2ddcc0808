-- ===== src/Session.antt =====
-- lib/sessionState.ts: what the start of a new session does to the claims that are left over. Only the
-- claims and their events are modelled here; `now` is the instant of the reset.
pub mod Reset
use orc_state.Base.{
  Bool, true, false, Option, none, some, String, List, [], ◌∷◌, ℕ, map, filter_by, length,
  if◌then◌else◌, Result, ok, err, ◌>>=◌,
}
use orc_state.Base.Time.{Stamp, iso}
use orc_state.Model.Claim.{Claim, ClaimState, is_active}
use orc_state.Runs.{
  Event, human_actor, run_failed, failure_payload, RunsDb, ClaimFault, commit_claims,
}

abbrev pub reset_claim : ℕ → Claim → Claim
reset_claim now claim =
    if is_active claim.state
    then record claim {
      state = ClaimState.failed;
      failure_reason = some "session_reset";
      finished_at = some (iso now);
    }
    else claim

abbrev reset_event : ℕ → Claim → Event
reset_event now claim = record {
  ts = iso now;
  name = run_failed;
  actor_type = human_actor;
  actor_id = "human";
  run_id = claim.run_id;
  task_ref = claim.task_ref;
  agent_id = some claim.agent_id;
  payload = failure_payload (some "session_reset") (some "ERR_SESSION_RESET") "requeue";
}

abbrev pub was_active : Claim → Bool
was_active c = is_active c.state

abbrev pub reset_events : ℕ → List Claim → List Event
reset_events now claims = map (reset_event now) (filter_by was_active claims)

-- The claims' part of `resetVolatileRuntimeStateForSession`, with the number of claims reset.
unfoldable pub reset_claims_for_session :
    (Event → Bool) → ℕ → RunsDb → Result ClaimFault (ℕ × RunsDb)
reset_claims_for_session valid now db = do
  db' ← commit_claims valid (map (reset_claim now) db.claims) (reset_events now db.claims) db
  ok (length (filter_by was_active db.claims), db')

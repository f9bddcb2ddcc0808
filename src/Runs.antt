-- ===== src/Runs.antt =====
-- lib/runStore.ts: the table of claims and the event log of events.db, after the cut-over from
-- claims.json. `commitClaims` writes claims and events in one transaction. Which events the schema
-- validator (ajv) and the event rules accept is the parameter `valid`.
pub mod Commit
pub mod Update
use orc_state.Base.{
  Bool, true, false, not, ◌&&◌, ◌||◌, List, [], ◌∷◌, ◌++◌, map, Option, none, some, String, ℕ, suc,
  ◌==◌, any_of, includes, filter_by, if◌then◌else◌, Result, ok, err, ◌>>=◌, ◌>>◌, throw_if,
}
use orc_state.Base.Time.{Stamp}
use orc_state.Model.Claim.{Claim, ClaimState, is_active}

pub data EventName : Type 0 where
  claim_created task_envelope_sent run_started heartbeat : EventName
  run_finished run_failed claim_expired : EventName

pub data ActorType : Type 0 where
  agent_actor coordinator_actor human_actor : ActorType

pub data Payload : Type 0 where
  no_payload empty_payload : Payload
  lease_payload : Stamp → Payload
  failure_payload : Option String → Option String → String → Payload
  expiry_payload : String → String → Payload

pub record Event : Type 0 where
  pub ts : Stamp
  pub name : EventName
  pub actor_type : ActorType
  pub actor_id : String
  pub run_id : String
  pub task_ref : String
  pub agent_id : Option String
  pub payload : Payload

pub record SequencedEvent : Type 0 where
  pub seq : ℕ
  pub event : Event

pub record RunsDb : Type 0 where
  pub claims : List Claim
  pub events : List SequencedEvent
  pub last_seq : ℕ

-- What the operations on claims throw.
pub data ClaimFault : Type 0 where
  claim_not_found task_not_found store_missing : String → ClaimFault
  belongs_to task_reserved : String → ClaimFault
  wrong_state : ClaimState → ClaimFault
  invalid_timestamp lease_expired event_invalid two_active_claims : ClaimFault
  task_not_claimable already_claimed backlog_refused : ClaimFault
  invalid_pr_ref invalid_seq snapshot_not_written : ClaimFault

-- The row of the claim, replaced if its run is in the table and appended otherwise.
abbrev pub put_row : Claim → List Claim → List Claim
put_row claim [] = claim ∷ []
put_row claim (row ∷ rows) =
    let rest = put_row claim rows in if row.run_id == claim.run_id then claim ∷ rows else row ∷ rest

-- The unique index over active runs: another active row for the same task.
abbrev pub conflicts : Claim → List Claim → Bool
conflicts claim rows =
    is_active claim.state
    && any_of
        (λ row.
          not (row.run_id == claim.run_id) && is_active row.state && row.task_ref == claim.task_ref)
        rows

unfoldable pub upsert_claim : Claim → List Claim → Result ClaimFault (List Claim)
upsert_claim claim rows = do
  throw_if (conflicts claim rows) two_active_claims
  ok (put_row claim rows)

unfoldable pub upsert_all : List Claim → List Claim → Result ClaimFault (List Claim)
unfolding upsert_claim
upsert_all [] rows = ok rows
upsert_all (claim ∷ claims) rows = upsert_claim claim rows >>= upsert_all claims

module _ (valid : Event → Bool) where
  -- `appendSequencedEvent`: validated, then stored under the next sequence number.
  unfoldable pub append_event : Event → RunsDb → Result ClaimFault RunsDb
  append_event event db = do
    throw_if (not (valid event)) event_invalid
    ok (record db {
      events = db.events ++ record { seq = suc db.last_seq; event = event } ∷ [];
      last_seq = suc db.last_seq;
    })

  unfoldable pub append_events : List Event → RunsDb → Result ClaimFault RunsDb
  unfolding append_event
  append_events [] db = ok db
  append_events (event ∷ events) db = append_event event db >>= append_events events

  unfoldable pub commit_claims : List Claim → List Event → RunsDb → Result ClaimFault RunsDb
  unfolding upsert_all append_events
  commit_claims claims events db = do
    let desired = map (λ (c : Claim). c.run_id) claims
    rows ← upsert_all claims (filter_by (λ row. includes desired row.run_id) db.claims)
    append_events events (record db { claims = rows })

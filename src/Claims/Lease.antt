-- ===== src/Claims/Lease.antt =====
-- Leases: what a heartbeat and a renewal do, and the step relation of the operations on claims.
use orc_state.Base.{
  Bool, true, false, not, ◌||◌, List, [], ◌∷◌, ◌++◌, Option, some, String, ℕ, ◌+◌, ◌≤◌, ◌<◌, ◌≡◌,
  ◌≢◌, refl, arith, eq_refl, All, inl, inr, Option-cases, Bool-cases, ok, err, ◌>>=◌, >>=-eq-ok,
  sym, if◌then◌else◌, modify_first, length,
}
use mathlib.Core.Path.{subst}
use orc_state.Runs.Commit.{sequenced}
use orc_state.Base.Find.{find-modify_first}
use orc_state.Base.Time.{Stamp, iso, junk, opt_stamp_truthy}
use orc_state.Base.Int.{ℤ}
use orc_state.Model.Claim.{Claim, FinalizationState, InputState, is_active}
use orc_state.Runs.{
  Event, ActorType, RunsDb, lease_expired, heartbeat, agent_actor, lease_payload,
  task_envelope_sent, empty_payload,
}
use orc_state.Runs.Update.{IsTable}
use orc_state.Claims.{
  has_run_id, claim_of, save, mark_task_envelope_sent, claim_event, expired_at,
  set_run_finalization_state, set_run_input_state, set_run_session_start_retry_state,
  set_escalation_notified, set_pr_ref, set_pr_created_at, heartbeat_run, renew_lease_only,
}
use orc_state.Claims.Wellformed.{save_total}
use orc_state.Claims.Fields.{
  Touches, Touches-self, saved-Touches, claim_of-run_id, set_pr_ref-Touches,
  set_pr_created_at-Touches, set_escalation_notified-Touches, set_run_finalization_state-Touches,
  set_run_input_state-Touches, set_run_session_start_retry_state-Touches,
}

module _ (valid : Event → Bool) where
  abbrev sent_events : Bool → Stamp → ActorType → String → Claim → List Event
  sent_events emit at actor_type actor_id c =
      if emit
      then claim_event at task_envelope_sent actor_type actor_id c empty_payload ∷ []
      else []

  mark_task_envelope_sent-Touches :
      (run_id agent_id : String) (emit : Bool) (at : Stamp) (actor_type : ActorType)
      (actor_id : String) (db db' : RunsDb) (c : Claim)
      → IsTable db.claims
      → mark_task_envelope_sent valid run_id agent_id emit at actor_type actor_id db ≡ ok (c, db')
      → Touches run_id db db'
  unfolding mark_task_envelope_sent
  mark_task_envelope_sent-Touches run_id agent_id emit at actor_type actor_id db db' c t h =
      elim (Option-cases (claim_of db run_id)) [
        | inl e ↦ absurd (ground arith)
        | inr (old, e) ↦ elim (Bool-cases (opt_stamp_truthy old.task_envelope_sent_at)) [
          | inl sent ↦ let same : db' ≡ db = ground arith in rw same (Touches-self run_id db t)
          | inr unsent ↦
              saved-Touches valid run_id old (record old { task_envelope_sent_at = some at })
                (sent_events emit at actor_type actor_id old) db db' c t e refl refl (ground arith)
        ]
      ]

  abbrev beat_events : Bool → Stamp → String → Stamp → Claim → List Event
  beat_events emit at agent_id lease c =
      if emit
      then claim_event at heartbeat agent_actor agent_id c (lease_payload lease) ∷ []
      else []

  heartbeat_run-Touches :
      (run_id agent_id : String) (duration : ℕ) (emit : Bool) (at : Stamp) (db db' : RunsDb)
      (c : Claim)
      → IsTable db.claims
      → heartbeat_run valid run_id agent_id duration emit at db ≡ ok (c, db')
      → Touches run_id db db'
  unfolding heartbeat_run
  heartbeat_run-Touches run_id agent_id duration emit (junk text) db db' c t h =
      elim (Option-cases (claim_of db run_id)) [
        | inl e ↦ absurd (ground arith)
        | inr (old, e) ↦ absurd (ground arith)
      ]
  heartbeat_run-Touches run_id agent_id duration emit (iso now) db db' c t h =
      elim (Option-cases (claim_of db run_id)) [
        | inl e ↦ absurd (ground arith)
        | inr (old, e) ↦
            saved-Touches valid run_id old
              (record old {
                last_heartbeat_at = some (iso now);
                lease_expires_at = iso (now + duration);
              })
              (beat_events emit (iso now) agent_id (iso (now + duration)) old) db db' c t e refl
              refl (ground arith)
      ]

  renew_lease_only-Touches :
      (run_id : String) (duration now : ℕ) (db db' : RunsDb)
      → IsTable db.claims
      → renew_lease_only valid run_id duration now db ≡ ok db'
      → Touches run_id db db'
  unfolding renew_lease_only
  renew_lease_only-Touches run_id duration now db db' t h =
      elim (Option-cases (claim_of db run_id)) [
        | inl e ↦ let same : db' ≡ db = ground arith in rw same (Touches-self run_id db t)
        | inr (old, e) ↦
            elim (Bool-cases (not (is_active old.state) || expired_at old.lease_expires_at now)) [
              | inl left ↦ let same : db' ≡ db = ground arith in rw same (Touches-self run_id db t)
              | inr live ↦
                  let new = record old { lease_expires_at = iso (now + duration) } in
                  let taken : (save valid new [] db >>= λ saved. ok saved.1) ≡ ok db' =
                    ground arith in
                  let (saved, done, rest) =
                    >>=-eq-ok (save valid new [] db) (λ saved. ok saved.1) taken in
                  let same : db' ≡ saved.1 = ground (arith, rest) in
                  rw same
                    (saved-Touches valid run_id old new [] db saved.1 saved.0 t e refl refl done)
            ]
      ]

-- One successful operation on the claim of a run.
pub data ClaimStep (valid : Event → Bool) (run_id : String) (db db' : RunsDb) : Type 0 where
  envelope_sent :
      (agent_id : String) (emit : Bool) (at : Stamp) (actor_type : ActorType) (actor_id : String)
      (c : Claim)
      → mark_task_envelope_sent valid run_id agent_id emit at actor_type actor_id db ≡ ok (c, db')
      → ClaimStep valid run_id db db'
  finalization :
      (agent_id : String) (state : Option FinalizationState) (delta : ℤ) (reason : Option String)
      (c : Claim)
      → set_run_finalization_state valid run_id agent_id state delta reason db ≡ ok (c, db')
      → ClaimStep valid run_id db db'
  input :
      (agent_id : String) (state : Option InputState) (at : Option Stamp) (now : ℕ) (c : Claim)
      → set_run_input_state valid run_id agent_id state at now db ≡ ok (c, db')
      → ClaimStep valid run_id db db'
  start_retry :
      (agent_id : String) (count : ℕ) (next : Option Stamp) (last_error : Option String) (c : Claim)
      → set_run_session_start_retry_state valid run_id agent_id count next last_error db
        ≡ ok (c, db')
      → ClaimStep valid run_id db db'
  escalation :
      (now : ℕ) (c : Claim)
      → set_escalation_notified valid run_id now db ≡ ok (c, db')
      → ClaimStep valid run_id db db'
  pr_ref :
      (pr_ref : String) (c : Claim)
      → set_pr_ref valid run_id pr_ref db ≡ ok (c, db')
      → ClaimStep valid run_id db db'
  pr_created :
      (at : Stamp) (seq : Option ℕ) (c : Claim)
      → set_pr_created_at valid run_id at seq db ≡ ok (c, db')
      → ClaimStep valid run_id db db'
  beat :
      (agent_id : String) (duration : ℕ) (emit : Bool) (at : Stamp) (c : Claim)
      → heartbeat_run valid run_id agent_id duration emit at db ≡ ok (c, db')
      → ClaimStep valid run_id db db'
  renewal :
      (duration now : ℕ)
      → renew_lease_only valid run_id duration now db ≡ ok db'
      → ClaimStep valid run_id db db'

-- Recording an envelope, a finalization or input state, a start retry, an escalation, a pull request,
-- a heartbeat or a lease renewal keeps the table well formed, leaves every other run's claim as it
-- is, and keeps the task, the agent, the state and the claim time of the run.
pub ClaimStep-Touches :
    (valid : Event → Bool) (run_id : String) (db db' : RunsDb)
    → IsTable db.claims
    → ClaimStep valid run_id db db'
    → Touches run_id db db'
ClaimStep-Touches valid run_id db db' t (envelope_sent agent_id emit at actor_type actor_id c h) =
    mark_task_envelope_sent-Touches valid run_id agent_id emit at actor_type actor_id db db' c t h
ClaimStep-Touches valid run_id db db' t (finalization agent_id state delta reason c h) =
    set_run_finalization_state-Touches valid run_id agent_id state delta reason db db' c t h
ClaimStep-Touches valid run_id db db' t (input agent_id state at now c h) =
    set_run_input_state-Touches valid run_id agent_id state at now db db' c t h
ClaimStep-Touches valid run_id db db' t (start_retry agent_id count next last_error c h) =
    set_run_session_start_retry_state-Touches valid run_id agent_id count next last_error db db' c t
      h
ClaimStep-Touches valid run_id db db' t (escalation now c h) =
    set_escalation_notified-Touches valid run_id now db db' c t h
ClaimStep-Touches valid run_id db db' t (pr_ref ref c h) =
    set_pr_ref-Touches valid run_id ref db db' c t h
ClaimStep-Touches valid run_id db db' t (pr_created at seq c h) =
    set_pr_created_at-Touches valid run_id at seq db db' c t h
ClaimStep-Touches valid run_id db db' t (beat agent_id duration emit at c h) =
    heartbeat_run-Touches valid run_id agent_id duration emit at db db' c t h
ClaimStep-Touches valid run_id db db' t (renewal duration now h) =
    renew_lease_only-Touches valid run_id duration now db db' t h

module _ (valid : Event → Bool) (run_id : String) (duration now : ℕ) (db : RunsDb) {old : Claim}
    (t : IsTable db.claims) (found : claim_of db run_id ≡ some old)
    (active : is_active old.state ≡ true) where
  beat_events_valid :
      (emit : Bool) (at : ℕ) (c : Claim) (lease : Stamp)
      → valid (claim_event (iso at) heartbeat agent_actor c.agent_id c (lease_payload lease)) ≡ true
      → All (λ e. valid e ≡ true) (beat_events valid emit (iso at) c.agent_id lease c)
  beat_events_valid true at c lease good = (good, tt)
  beat_events_valid false at c lease good = tt

  -- A heartbeat of the owner of an active claim, at an instant that is not after the end of its lease
  -- and with an acceptable event, succeeds: in the new table the run's claim has a lease that ends
  -- `duration` after the heartbeat and notes the heartbeat, no other run's claim has changed, and the
  -- log has one heartbeat more if one is asked for.
  pub heartbeat_run_total :
      (emit : Bool) (until : ℕ)
      → old.lease_expires_at ≡ iso until
      → now ≤ until
      → valid (
          claim_event
            (iso now)
            heartbeat
            agent_actor
            old.agent_id
            old
            (lease_payload (iso (now + duration))))
        ≡ true
      → (db' : RunsDb) × (heartbeat_run valid run_id old.agent_id duration emit (iso now) db
          ≡ ok (
            record old {
              last_heartbeat_at = some (iso now);
              lease_expires_at = iso (now + duration);
            },
            db',
          ))
        × (claim_of db' run_id
            ≡ some (record old {
              last_heartbeat_at = some (iso now);
              lease_expires_at = iso (now + duration);
            }))
        × ((other : String) → other ≢ run_id → claim_of db' other ≡ claim_of db other)
        × (db'.events
            ≡ db.events
              ++ sequenced db.last_seq (
                  if emit
                  then claim_event
                      (iso now)
                      heartbeat
                      agent_actor
                      old.agent_id
                      old
                      (lease_payload (iso (now + duration)))
                    ∷ []
                  else []))
  unfolding heartbeat_run
  heartbeat_run_total emit until ends live good =
      let new = record old {
        last_heartbeat_at = some (iso now);
        lease_expires_at = iso (now + duration);
      } in
      let events = beat_events valid emit (iso now) old.agent_id (iso (now + duration)) old in
      let after : RunsDb = record {
        claims = modify_first (has_run_id old.run_id) (λ _. new) db.claims;
        events = db.events ++ sequenced db.last_seq events;
        last_seq = db.last_seq + length events;
      } in
      let named = claim_of-run_id db run_id found in
      let at : claim_of db old.run_id ≡ some old =
        subst (λ id. claim_of db id ≡ some old) (sym named) found in
      let done : heartbeat_run valid run_id old.agent_id duration emit (iso now) db
          ≡ ok (new, after) =
        ground (
          arith,
          eq_refl old.agent_id,
          save_total valid old new events db t at
              (record { run_id = refl; task_ref = refl; active = λ a. a })
              (beat_events_valid emit now old (iso (now + duration)) good),
        ) in
      (
        after,
        done,
        subst (λ id. claim_of after id ≡ some new) named
            (find-modify_first (has_run_id old.run_id) (λ _. new) db.claims {a = old} at
              (eq_refl old.run_id)),
        (heartbeat_run-Touches valid run_id old.agent_id duration emit (iso now) db after new t
            done).frame,
        refl,
      )

  -- After the end of an active claim's lease, neither a heartbeat of its owner at that instant, which its
  -- caller gives, nor a renewal at that time extends it: the heartbeat fails and the renewal changes
  -- nothing.
  pub expired_lease_stays :
      (emit : Bool) (until : ℕ)
      → old.lease_expires_at ≡ iso until
      → until < now
      → (heartbeat_run valid run_id old.agent_id duration emit (iso now) db ≡ err lease_expired)
        × (renew_lease_only valid run_id duration now db ≡ ok db)
  unfolding heartbeat_run renew_lease_only
  expired_lease_stays emit until ends late =
      (ground (arith, eq_refl old.agent_id), ground (arith, eq_refl old.agent_id))

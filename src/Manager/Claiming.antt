-- ===== src/Manager/Claiming.antt =====
-- lib/claimManager.ts, claimTask: the store takes the claim first, and gives it back if the claim cannot be
-- committed. The id of the run is the argument `run_id`. What writeRunRevisionSnapshot of
-- lib/documentIndex.ts returns for a run and a revision is `snapshot`, with `none` if it throws.
-- `needs_store` says that the directory is a project's though it has no store.
use orc_state.Base.{
  Bool, not, ◌&&◌, List, [], ◌∷◌, ◌++◌, Option, none, some, String, ℕ, ◌+◌, ◌==◌, any_of,
  or_default, opt_eq, truthy, Result, ok, err, ◌>>=◌, ◌>>◌, throw_if,
}
use orc_state.Base.Time.{Stamp, iso}
use orc_state.Model.Claim.{Claim, ClaimState, TaskSpecSnapshot, is_active}
use orc_state.Model.Task.{TaskStatus, Task, is_todo}
use orc_state.Contract.{Cause, failure_requeue}
use orc_state.Store.Schema.{Db}
use orc_state.Store.Transition.{TransitionInput, apply_transition}
use orc_state.Store.Binding.{claim_task, abandon_run}
use orc_state.Runs.{
  Event, RunsDb, ClaimFault, task_not_found, task_not_claimable, task_reserved, already_claimed,
  store_missing, snapshot_not_written, agent_actor, claim_created, lease_payload, commit_claims,
}
use orc_state.Claims.{claim_event}
use orc_state.Projects.{Metadata, store_fault}
use orc_state.Manager.{
  Source, World, Outcome, project, legacy, refused, stopped, undone, finished, find_task, put_task,
  backlog_of,
}

abbrev new_claim : ℕ → String → String → String → ℕ → Option TaskSpecSnapshot → Claim
new_claim now run_id ref agent_id lease_duration_ms snapshot = record {
  run_id = run_id;
  task_ref = ref;
  agent_id = agent_id;
  state = ClaimState.claimed;
  claimed_at = iso now;
  lease_expires_at = iso (now + lease_duration_ms);
  task_envelope_sent_at = none;
  last_heartbeat_at = none;
  started_at = none;
  finished_at = none;
  failure_reason = none;
  finalization_state = none;
  finalization_retry_count = some 0;
  finalization_blocked_reason = none;
  input_state = none;
  input_requested_at = none;
  session_start_retry_count = some 0;
  session_start_retry_next_at = none;
  session_start_last_error = none;
  escalation_notified_at = none;
  pr_ref = none;
  pr_created_at = none;
  pr_initial_work_complete_seq = none;
  task_spec_snapshot = snapshot;
}

abbrev has_active_claim : String → List Claim → Bool
has_active_claim ref claims = any_of (λ c. c.task_ref == ref && is_active c.state) claims

abbrev found_task : String → Option Task → Result ClaimFault Task
found_task ref none = err (task_not_found ref)
found_task ref (some task) = ok task

-- The checks before anything is written.
abbrev pub check_task : String → String → Option Task → List Claim → Bool → Result ClaimFault Task
check_task ref agent_id asked claims needs_store = do
  task ← found_task ref asked
  throw_if (not (is_todo task.status)) task_not_claimable
  throw_if (truthy task.owner && not (opt_eq task.owner (some agent_id)))
      (task_reserved (or_default task.owner ""))
  throw_if (has_active_claim ref claims) already_claimed
  throw_if needs_store (store_missing ref)
  ok task

abbrev pub give_back : String → String → TransitionInput
give_back run_id agent_id = record {
  cause = failure_requeue;
  to = TaskStatus.todo;
  reason = some "claim_not_committed";
  run_id = some run_id;
  actor_id = some agent_id;
  idempotency_key = none;
}

-- The `catch` block: the task goes back to the queue and the binding of the run is closed.
unfoldable pub undo_claim : Stamp → String → String → String → ClaimFault → Db → RunsDb → Outcome
unfolding apply_transition abandon_run
undo_claim now ref run_id agent_id fault db runs =
    elim (apply_transition now ref (give_back run_id agent_id) db) [
      | err second ↦ stopped (store_fault second) (record { runs = runs; source = project db })
      | ok returned ↦
          undone fault (record { runs = runs; source = project (abandon_run now run_id returned) })
    ]

module _ (valid : Event → Bool) (parse : String → Metadata) (cause_text : Cause → String)
    (snapshot : String → ℕ → Option TaskSpecSnapshot) where
  -- The claim is pushed and committed with its event.
  abbrev pub commit_claim :
      ℕ → String → String → String → ℕ → Option TaskSpecSnapshot → RunsDb → Result ClaimFault RunsDb
  commit_claim now run_id ref agent_id lease_duration_ms spec runs =
      let claim = new_claim now run_id ref agent_id lease_duration_ms spec in
      commit_claims valid (runs.claims ++ claim ∷ [])
        (claim_event (iso now) claim_created agent_actor agent_id claim
            (lease_payload (iso (now + lease_duration_ms)))
          ∷ [])
        runs

  abbrev pub commit_bound :
      ℕ → String → String → String → ℕ → Option TaskSpecSnapshot → Db → RunsDb → Outcome
  commit_bound now run_id ref agent_id lease_duration_ms none db runs =
      undo_claim (iso now) ref run_id agent_id snapshot_not_written db runs
  commit_bound now run_id ref agent_id lease_duration_ms (some spec) db runs =
      elim (commit_claim now run_id ref agent_id lease_duration_ms (some spec) runs) [
        | err fault ↦ undo_claim (iso now) ref run_id agent_id fault db runs
        | ok runs' ↦ finished (record { runs = runs'; source = project db })
      ]

  abbrev pub claim_checked : ℕ → String → String → String → ℕ → Task → Source → RunsDb → Outcome
  claim_checked now run_id ref agent_id lease_duration_ms task (legacy backlog) runs =
      elim (commit_claim now run_id ref agent_id lease_duration_ms none runs) [
        | err fault ↦ refused fault
        | ok runs' ↦ finished (record {
          runs = runs';
          source = legacy (put_task (record task { status = TaskStatus.claimed }) backlog);
        })
      ]
  claim_checked now run_id ref agent_id lease_duration_ms task (project db) runs =
      elim (claim_task (iso now) ref run_id agent_id db) [
        | err fault ↦ stopped (store_fault fault) (record { runs = runs; source = project db })
        | ok (pinned, db') ↦
            commit_bound now run_id ref agent_id lease_duration_ms (snapshot run_id pinned) db' runs
      ]

  -- `claimTask` of the claim manager.
  unfoldable pub claim_task_run : ℕ → String → String → String → ℕ → Bool → World → Outcome
  unfolding undo_claim claim_task commit_claims
  claim_task_run now run_id ref agent_id lease_duration_ms needs_store world =
      elim (check_task ref agent_id (find_task (backlog_of parse cause_text world.source) ref)
        world.runs.claims needs_store) [
          | err fault ↦ refused fault
          | ok task ↦
              claim_checked now run_id ref agent_id lease_duration_ms task world.source world.runs
        ]

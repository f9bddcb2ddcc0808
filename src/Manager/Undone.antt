-- ===== src/Manager/Undone.antt =====
-- A claim that could not be committed leaves the task as it was, but for its history.
use mathlib.Core.Option
use orc_state.Base.{
  Bool, String, ℕ, Option, none, some, ◌≡◌, ◌≢◌, refl, ◌∙◌, ap, arith, Result-cases, inl, inr,
}
use orc_state.Base.Time.{Stamp, iso}
use orc_state.Model.Claim.{TaskSpecSnapshot}
use orc_state.Model.Task.{TaskStatus}
use orc_state.Contract.{Cause}
use orc_state.Store.Schema.{TaskRow, Db, task_by_ref}
use orc_state.Store.Transition.{apply_transition}
use orc_state.Store.Binding.{claim_task, abandon_run}
use orc_state.Store.Effects.{get_task-row}
use orc_state.Store.Claiming.{ClaimEffect, claim_task-effect}
use orc_state.Projects.Commit.{unkeyed_moved}
use orc_state.Runs.{Event, RunsDb, ClaimFault, snapshot_not_written}
use orc_state.Projects.{Metadata}
use orc_state.Projects.Reading.{read_project_backlog}
use orc_state.Manager.{World, project, undone, find_task}
use orc_state.Manager.Claiming.{
  check_task, give_back, undo_claim, commit_claim, commit_bound, claim_task_run,
}

-- The claims are untouched, and in the store the task is back in the queue and no other has changed.
pub record Returned (ref : String) (runs : RunsDb) (db : Db) (world : World) : Type 0 where
  pub after : Db
  pub claims : world.runs ≡ runs
  pub stored : world.source ≡ project after
  pub was_todo :
      Option.map (λ (t : TaskRow). t.status) (task_by_ref db.tasks ref) ≡ some TaskStatus.todo
  pub is_todo :
      Option.map (λ (t : TaskRow). t.status) (task_by_ref after.tasks ref) ≡ some TaskStatus.todo
  pub frame :
      (other : String) → other ≢ ref → task_by_ref after.tasks other ≡ task_by_ref db.tasks other

undo_claim-Returned :
    (now : Stamp) (ref run_id agent_id : String) (pinned : ℕ) (fault raised : ClaimFault)
    (db db1 : Db) (runs : RunsDb) (world : World)
    → ClaimEffect now ref run_id agent_id pinned db db1
    → undo_claim now ref run_id agent_id fault db1 runs ≡ undone raised world
    → Returned ref runs db world
unfolding undo_claim abandon_run
undo_claim-Returned now ref run_id agent_id pinned fault raised db db1 runs world claimed h =
    elim (Result-cases (apply_transition now ref (give_back run_id agent_id) db1)) [
      | inl (second, e) ↦ absurd (ground arith)
      | inr (returned, e) ↦
          let m = unkeyed_moved now ref (give_back run_id agent_id) db1 returned refl e in
          let same : world
              ≡ record { runs = runs; source = project (abandon_run now run_id returned) } =
            ground arith in
          record {
            after = abandon_run now run_id returned;
            claims = ap (λ (w : World). w.runs) same;
            stored = ap (λ (w : World). w.source) same;
            was_todo =
                ap (Option.map (λ (t : TaskRow). t.status))
                  (get_task-row db ref {t = claimed.task} claimed.read)
                ∙ ap some claimed.was_todo;
            is_todo = ap (Option.map (λ (t : TaskRow). t.status)) m.row;
            frame = λ other apart. m.frame other apart ∙ claimed.frame other apart;
          }
    ]

module _ (valid : Event → Bool) (parse : String → Metadata) (cause_text : Cause → String)
    (snapshot : String → ℕ → Option TaskSpecSnapshot) where
  commit_bound-Returned :
      (now : ℕ) (run_id ref agent_id : String) (lease_duration_ms pinned : ℕ)
      (spec : Option TaskSpecSnapshot) (raised : ClaimFault) (db db1 : Db) (runs : RunsDb)
      (world : World)
      → ClaimEffect (iso now) ref run_id agent_id pinned db db1
      → commit_bound valid parse cause_text snapshot now run_id ref agent_id lease_duration_ms spec
          db1 runs
        ≡ undone raised world
      → Returned ref runs db world
  commit_bound-Returned now run_id ref agent_id lease_duration_ms pinned none raised db db1 runs
        world claimed h =
      undo_claim-Returned (iso now) ref run_id agent_id pinned snapshot_not_written raised db db1
        runs world claimed h
  commit_bound-Returned now run_id ref agent_id lease_duration_ms pinned (some spec) raised db db1
        runs world claimed h =
      elim (Result-cases (
        commit_claim valid parse cause_text snapshot now run_id ref agent_id lease_duration_ms
          (some spec) runs)) [
            | inr (runs', e) ↦ absurd (ground arith)
            | inl (fault, e) ↦
                undo_claim-Returned (iso now) ref run_id agent_id pinned fault raised db db1 runs
                  world claimed (ground arith)
          ]

  -- If a claim of a project's task is given back, because the run's copy of the specification was not
  -- written or the claim was not committed, then the claims are as before, the task, which was in the
  -- queue, is in the queue again, and no other task has changed.
  pub claim_task_run-Returned :
      (now : ℕ) (run_id ref agent_id : String) (lease_duration_ms : ℕ) (needs_store : Bool)
      (raised : ClaimFault) (runs : RunsDb) (db : Db) (world : World)
      → claim_task_run valid parse cause_text snapshot now run_id ref agent_id lease_duration_ms
          needs_store
          (record { runs = runs; source = project db })
        ≡ undone raised world
      → Returned ref runs db world
  unfolding claim_task_run
  claim_task_run-Returned now run_id ref agent_id lease_duration_ms needs_store raised runs db world
        h =
      elim (Result-cases (
        check_task ref agent_id (find_task (read_project_backlog parse db) ref) runs.claims
          needs_store)) [
            | inl (fault, e) ↦ absurd (ground arith)
            | inr (task, checked) ↦
                elim (Result-cases (claim_task (iso now) ref run_id agent_id db)) [
                  | inl (fault, e) ↦ absurd (ground arith)
                  | inr ((pinned, db1), e) ↦
                      commit_bound-Returned now run_id ref agent_id lease_duration_ms pinned
                        (snapshot run_id pinned) raised db db1 runs world
                        (claim_task-effect (iso now) ref run_id agent_id pinned db db1 e)
                        (ground arith)
                ]
          ]

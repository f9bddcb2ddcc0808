-- ===== src/Examples/Store.antt =====
-- lib/projectTaskStore.ts on a small project: one finished task and one that depends on it.
use orc_state.Base.{
  true, false, [], ◌∷◌, none, some, String, ℕ, ◌≡◌, refl, arith, Result, ok, err, ◌⊎◌, ◌&&◌, not,
}
use mathlib.Core.Option
use orc_state.Base.{nat_eq}
use orc_state.Store.Plans.{PlanInput, get_plan, save_plan, row_of}
use orc_state.Store.Plans.Saving.{content, save_plan-get_plan}
use orc_state.Base.Time.{iso}
use orc_state.Model.Task.{TaskStatus, Priority}
use orc_state.Contract.{claim, run_start, can_transition_task_status, derive_dependency_readiness}
use orc_state.Contract.Ready.{is_ready, derive_dependency_readiness-is_ready}
use orc_state.Store.Schema.{TaskRow, RevisionRow, Db, Fault, not_claimable, cause_allows}
use orc_state.Store.Transition.{
  TransitionInput, ProjectTask, apply_transition, get_task, dependencies, repeats_key,
}
use orc_state.Store.Binding.{claim_task, claim_input}
use orc_state.Store.Legality.{cause_allows-can_transition, is_migration}
use orc_state.Store.Effects.{TaskMoved, apply_transition-effect, apply_transition-total}
use orc_state.Store.OneRun.{OneOpen, StoreReach-OneOpen, claiming, here, next}
use orc_state.Store.Claiming.{ClaimEffect, claim_task-effect, claim_task_twice}

abbrev task_row : String → TaskStatus → TaskRow
task_row ref status = record {
  ref = ref;
  title = "title";
  status = status;
  priority = Priority.normal;
  required_provider = none;
  attempt_count = 0;
  blocked_reason = none;
  created_at = iso 1;
  updated_at = iso 1;
  owner = none;
  planning_state = none;
  delegated_by = none;
  task_type = none;
  requeue_eligible_after = none;
}

abbrev revision_row : String → ℕ → RevisionRow
revision_row ref revision = record {
  task_ref = ref;
  revision = revision;
  content_hash = "hash";
  body_markdown = "body";
  title = "title";
  metadata_json = "{}";
  created_at = iso 1;
}

abbrev project : Db
project = record {
  tasks = task_row "a" TaskStatus.done ∷ task_row "b" TaskStatus.todo ∷ [];
  revisions = revision_row "a" 1 ∷ revision_row "b" 1 ∷ revision_row "b" 2 ∷ [];
  dependencies = record { task_ref = "b"; depends_on_ref = "a" } ∷ [];
  transitions = [];
  last_transition_id = 0;
  runs = [];
}

abbrev db_of : Result Fault (ℕ × Db) → Db
db_of (ok (n, db)) = db
db_of (err e) = project

abbrev db_after : Result Fault Db → Db
db_after (ok db) = db
db_after (err e) = project

abbrev after_claim : Db
unfolding claim_task
after_claim = db_of (claim_task (iso 5) "b" "run1" "alice" project)

abbrev task_b : ProjectTask
task_b = record {
  row = task_row "b" TaskStatus.todo;
  revision = revision_row "b" 2;
  depends_on = "a" ∷ [];
}

claim_task-effect_example : ClaimEffect (iso 5) "b" "run1" "alice" 2 project after_claim
unfolding claim_task
claim_task-effect_example = claim_task-effect (iso 5) "b" "run1" "alice" 2 project after_claim refl

claim_task_twice_example :
    claim_task (iso 9) "b" "run2" "bob" after_claim ≡ err (not_claimable TaskStatus.claimed)
unfolding claim_task
claim_task_twice_example =
    claim_task_twice (iso 5) (iso 9) "b" "run1" "alice" "run2" "bob" 2 project after_claim refl

abbrev starting : TransitionInput
starting = record {
  cause = run_start;
  to = TaskStatus.in_progress;
  reason = none;
  run_id = some "run1";
  actor_id = some "alice";
  idempotency_key = some "key1";
}

abbrev after_start : Db
unfolding apply_transition
after_start = db_after (apply_transition (iso 6) "b" starting after_claim)

apply_transition-effect_example :
    ((repeats_key after_claim.transitions "b" (some "key1") ≡ true) × (after_start ≡ after_claim))
    ⊎ TaskMoved (iso 6) "b" starting after_claim after_start
unfolding apply_transition after_claim
apply_transition-effect_example =
    apply_transition-effect (iso 6) "b" starting after_claim after_start refl

apply_transition-total_example :
    (db' : Db) × (apply_transition (iso 5) "b" (claim_input "run1" "alice") project ≡ ok db')
unfolding get_task dependencies
apply_transition-total_example =
    apply_transition-total (iso 5) "b" (claim_input "run1" "alice") project {t = task_b} tt refl
      (λ e. ground arith) refl refl refl refl

cause_allows-can_transition_example :
    cause_allows claim TaskStatus.todo TaskStatus.claimed false ≡ (
      can_transition_task_status TaskStatus.todo TaskStatus.claimed claim
      && not (is_migration claim && false))
cause_allows-can_transition_example =
    cause_allows-can_transition claim TaskStatus.todo TaskStatus.claimed false

StoreReach-OneOpen_example : OneOpen after_claim
unfolding claim_task
StoreReach-OneOpen_example =
    StoreReach-OneOpen {db = project} {db' = after_claim} (λ ref. omega arith)
      (next here (claiming (iso 5) "b" "run1" "alice" 2 refl))

derive_dependency_readiness-is_ready_example :
    is_ready
      (derive_dependency_readiness TaskStatus.todo
        ("a" ∷ "a" ∷ [])
        (λ ref. some TaskStatus.done)).kind
    ≡ true
derive_dependency_readiness-is_ready_example =
    derive_dependency_readiness-is_ready TaskStatus.todo ("a" ∷ "a" ∷ [])
      (λ ref. some TaskStatus.done)

abbrev plan : PlanInput
plan = record {
  plan_id = 7;
  name = "plan";
  title = "title";
  body_markdown = "body";
  metadata_json = "{}";
  source_path = none;
}

-- The hash is the text itself here.
abbrev same_text : String → String
same_text text = text

save_plan-get_plan_example :
    (true ≡ true
      → (Option.map content (get_plan (row_of same_text (iso 3) plan ∷ []) 7) ≡ some (plan, "body"))
        × ((other : ℕ)
            → nat_eq 7 other ≡ false
            → get_plan (row_of same_text (iso 3) plan ∷ []) other ≡ get_plan [] other))
    × (true ≡ false → (row_of same_text (iso 3) plan ∷ []) ≡ [])
unfolding save_plan
save_plan-get_plan_example =
    save_plan-get_plan same_text (iso 3) plan [] (row_of same_text (iso 3) plan ∷ []) true refl

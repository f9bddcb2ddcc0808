-- ===== src/Contract.antt =====
-- lib/projectContract.ts: which task status changes which cause may make, and when a task is ready
-- to be dispatched.
pub mod Ready
use orc_state.Base.{
  Bool, true, false, not, ◌&&◌, ◌||◌, List, [], ◌∷◌, Option, none, some, String, filter_by, dedup,
  if◌then◌else◌,
}
use orc_state.Model.Task.{TaskStatus, is_todo, is_finished}

pub data Cause : Type 0 where
  claim run_start merge_succeeded post_merge_release failure_requeue failure_block : Cause
  manual_block unblock operator_reset cancel migration_import : Cause

-- `a === b` on statuses.
abbrev pub status_eq : TaskStatus → TaskStatus → Bool
status_eq TaskStatus.todo TaskStatus.todo = true
status_eq TaskStatus.claimed TaskStatus.claimed = true
status_eq TaskStatus.in_progress TaskStatus.in_progress = true
status_eq TaskStatus.blocked TaskStatus.blocked = true
status_eq TaskStatus.done TaskStatus.done = true
status_eq TaskStatus.released TaskStatus.released = true
status_eq TaskStatus.cancelled TaskStatus.cancelled = true
status_eq _ _ = false

abbrev pub can_transition_task_status : TaskStatus → TaskStatus → Cause → Bool
can_transition_task_status from to claim =
    status_eq from TaskStatus.todo && status_eq to TaskStatus.claimed
can_transition_task_status from to run_start =
    status_eq from TaskStatus.claimed && status_eq to TaskStatus.in_progress
can_transition_task_status from to merge_succeeded =
    status_eq from TaskStatus.in_progress && status_eq to TaskStatus.done
can_transition_task_status from to post_merge_release =
    status_eq from TaskStatus.done && status_eq to TaskStatus.released
can_transition_task_status from to failure_requeue =
    (status_eq from TaskStatus.claimed || status_eq from TaskStatus.in_progress)
    && status_eq to TaskStatus.todo
can_transition_task_status from to failure_block =
    (status_eq from TaskStatus.claimed || status_eq from TaskStatus.in_progress)
    && status_eq to TaskStatus.blocked
can_transition_task_status from to manual_block =
    status_eq from TaskStatus.todo && status_eq to TaskStatus.blocked
can_transition_task_status from to unblock =
    status_eq from TaskStatus.blocked && status_eq to TaskStatus.todo
can_transition_task_status from to operator_reset =
    not (status_eq from TaskStatus.todo) && status_eq to TaskStatus.todo
can_transition_task_status from to cancel =
    not (
      status_eq from TaskStatus.done
      || status_eq from TaskStatus.released
      || status_eq from TaskStatus.cancelled)
    && status_eq to TaskStatus.cancelled
can_transition_task_status from to migration_import =
    status_eq from TaskStatus.todo
    && (status_eq to TaskStatus.blocked
        || status_eq to TaskStatus.done
        || status_eq to TaskStatus.released
        || status_eq to TaskStatus.cancelled)

pub data ReadinessKind : Type 0 where
  ready waiting_for_dependencies status_not_todo : ReadinessKind

pub record Readiness : Type 0 where
  pub kind : ReadinessKind
  pub waiting_on : List String

-- `status !== 'done' && status !== 'released'` of what `statusByRef.get(ref)` returned.
abbrev pub is_waiting : Option TaskStatus → Bool
is_waiting none = true
is_waiting (some s) = not (is_finished s)

abbrev of_waiting : List String → Readiness
of_waiting [] = record { kind = ready; waiting_on = [] }
of_waiting (ref ∷ refs) = record { kind = waiting_for_dependencies; waiting_on = ref ∷ refs }

unfoldable pub derive_dependency_readiness :
    TaskStatus → List String → (String → Option TaskStatus) → Readiness
derive_dependency_readiness status depends_on status_by_ref =
    if is_todo status
    then of_waiting (filter_by (λ ref. is_waiting (status_by_ref ref)) (dedup depends_on))
    else record { kind = status_not_todo; waiting_on = [] }

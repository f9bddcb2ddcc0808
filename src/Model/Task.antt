-- ===== src/Model/Task.antt =====
-- types/backlog.ts: tasks, the features that hold them, and the backlog.
use orc_state.Base.{Bool, true, false, Option, String, List, ℕ}
use orc_state.Base.Time.{Stamp}

pub data TaskStatus : Type 0 where
  todo claimed in_progress blocked done released cancelled : TaskStatus

pub data Priority : Type 0 where
  low normal high critical : Priority

pub data PlanningState : Type 0 where
  ready_for_dispatch archived : PlanningState

-- The routing reads `task_type` and `required_provider` as plain texts.
pub record Task : Type 0 where
  pub ref : String
  pub title : String
  pub status : TaskStatus
  pub task_type : Option String
  pub priority : Option Priority
  pub planning_state : Option PlanningState
  pub required_capabilities : Option (List String)
  pub required_provider : Option String
  pub depends_on : Option (List String)
  pub attempt_count : Option ℕ
  pub requeue_eligible_after : Option Stamp
  pub blocked_reason : Option String
  pub owner : Option String
  pub description : Option String
  pub acceptance_criteria : Option (List String)
  pub review_level : Option String
  pub merge_strategy : Option String
  pub model : Option String
  pub delegated_by : Option String
  pub spec_revision : Option ℕ
  pub created_at : Option Stamp
  pub updated_at : Option Stamp

pub record Feature : Type 0 where
  pub ref : String
  pub title : String
  pub tasks : List Task

pub record Backlog : Type 0 where
  pub features : List Feature

-- `status === 'todo'`.
abbrev pub is_todo : TaskStatus → Bool
is_todo TaskStatus.todo = true
is_todo _ = false

-- `status === 'done' || status === 'released'`.
abbrev pub is_finished : TaskStatus → Bool
is_finished TaskStatus.done = true
is_finished TaskStatus.released = true
is_finished _ = false

-- `['claimed', 'in_progress'].includes(status)`.
abbrev pub is_running : TaskStatus → Bool
is_running TaskStatus.claimed = true
is_running TaskStatus.in_progress = true
is_running _ = false

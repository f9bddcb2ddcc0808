-- ===== src/Examples/Supervision.antt =====
-- lib/remediationPolicies.ts, lib/eventCheckpoint.ts, lib/runActivity.ts and selectProject of
-- lib/projectContract.ts at concrete inputs.
use orc_state.Base.{true, false, none, some, String, List, [], ◌∷◌, ℕ, ◌≤◌, ◌<◌, ◌≡◌, refl, All}
use orc_state.Base.Time.{iso}
use orc_state.Remediation.{
  RemediationSignals, RemediationConfig, RemediationResult, builtin_policies, has_events,
  repeated_failure, failed_attempts, evaluate_remediation_policies,
}
use orc_state.Remediation.Policies.{builtin_policies_block}
use orc_state.Checkpoint.{EventProcessingCheckpoint}
use orc_state.Activity.{OrcEvent, is_run_activity, run_and_time, build_run_map}
use orc_state.Activity.Latest.{build_run_map_latest}
use orc_state.Selection.{Choices, cwd, select_project}
use orc_state.Selection.Precedence.{Chosen, select_project-Chosen}

abbrev config : RemediationConfig
config = record { max_attempts = 3; phase_stuck_ms = 1200000; max_nudges = 3 }

abbrev signals : (attempts nudges : ℕ) → RemediationSignals
signals attempts nudges = record {
  idle_ms = 1300000;
  phase = some "explore";
  phase_changed = false;
  hook_events = [];
  blocking_prompt = none;
  session_alive = true;
  attempt_count = attempts;
  nudge_count = nudges;
}

abbrev blocking : RemediationResult
blocking = record { policy = repeated_failure config; message = failed_attempts 3 }

builtin_policies_block_example :
    (0 < 1)
    × (3 ≤ 3)
    × ((signals 3 1).session_alive ≡ true)
    × ((signals 3 1).blocking_prompt ≡ none)
    × (has_events [] ≡ false)
unfolding evaluate_remediation_policies builtin_policies
builtin_policies_block_example = builtin_policies_block config (signals 3 1) refl

abbrev empty_checkpoint : EventProcessingCheckpoint
empty_checkpoint = record {
  last_processed_seq = 4;
  processed_event_ids = "e3" ∷ "e4" ∷ [];
  updated_at = iso 1;
}

abbrev beat_of : String → ℕ → OrcEvent
beat_of run_id at = record {
  run_id = some run_id;
  ts = some (iso at);
  event = some "heartbeat";
  actor_type = some "agent";
  phase = none;
  payload_phase = none;
  payload_source = none;
}

abbrev beats : List OrcEvent
beats = beat_of "run1" 5 ∷ beat_of "run1" 9 ∷ beat_of "run2" 20 ∷ beat_of "run1" 7 ∷ []

build_run_map_latest_example :
    All (λ e. (m : ℕ) → run_and_time is_run_activity e ≡ some ("run1", iso m) → m ≤ 9) beats
unfolding build_run_map
build_run_map_latest_example =
    build_run_map_latest is_run_activity (λ (e : OrcEvent). e.ts) beats "run1" 9
      {found = record { run_id = "run1"; ts = iso 9; value = some (iso 9) }} refl refl

abbrev in_repository : Choices
in_repository = record {
  projects =
      record { id = "p1"; canonical_git_root = "/a" }
      ∷ record { id = "p2"; canonical_git_root = "/b" }
      ∷ [];
  explicit_project_id = none;
  environment_project_id = none;
  cwd_git_root = some "/b";
  selected_project_id = some "p1";
}

select_project-Chosen_example :
    Chosen in_repository (record { project_id = "p2"; source = cwd }) cwd
unfolding select_project
select_project-Chosen_example =
    select_project-Chosen in_repository (record { project_id = "p2"; source = cwd }) refl

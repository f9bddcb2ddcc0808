-- ===== src/Remediation.antt =====
-- lib/remediationPolicies.ts: the rules that the coordinator applies to an idle run. The fields `claim`
-- and `agent` of the signals, which no built-in rule reads, are left out; a message is a constructor
-- where the source has a text, with the values that the text shows.
pub mod Policies
use orc_state.Base.{
  Bool, true, false, not, ◌&&◌, ◌||◌, Option, none, some, String, List, [], ◌∷◌, ℕ, ◌+◌, ◌/◌, ltb,
  leb, if◌then◌else◌, is_some, or_default, or_else, truthy,
}

pub data RemediationAction : Type 0 where
  record_input nudge_targeted requeue_now block : RemediationAction

-- A hook event is its message, if it has one.
pub record RemediationSignals : Type 0 where
  pub idle_ms : ℕ
  pub phase : Option String
  pub phase_changed : Bool
  pub hook_events : List (Option String)
  pub blocking_prompt : Option String
  pub session_alive : Bool
  pub attempt_count : ℕ
  pub nudge_count : ℕ

pub data Message : Type 0 where
  dead_session : Message
  prompt : String → Message
  failed_attempts : ℕ → Message
  stuck_in_phase : String → (idle_seconds : ℕ) → Message
  stuck : (idle_seconds : ℕ) → Message
  too_many_nudges : ℕ → Message

-- `matches` has no answer where the source's `match` throws.
pub record RemediationPolicy : Type 0 where
  pub id : String
  pub matches : RemediationSignals → Option Bool
  pub action : RemediationAction
  pub message : RemediationSignals → Message

pub record RemediationResult : Type 0 where
  pub policy : RemediationPolicy
  pub message : Message

pub record RemediationConfig : Type 0 where
  pub max_attempts : ℕ
  pub phase_stuck_ms : ℕ
  pub max_nudges : ℕ

abbrev pub has_events : List (Option String) → Bool
has_events [] = false
has_events (e ∷ es) = true

-- `hookEvents[0]?.message`.
abbrev first_message : List (Option String) → Option String
first_message [] = none
first_message (e ∷ es) = e

-- `Math.round(ms / 1000)` of a whole number.
abbrev idle_seconds_of : ℕ → ℕ
idle_seconds_of ms = (ms + 500) / 1000

abbrev stuck_message : Option String → ℕ → Message
stuck_message none seconds = stuck seconds
stuck_message (some phase) seconds =
    if truthy (some phase) then stuck_in_phase phase seconds else stuck seconds

abbrev session_dead : RemediationPolicy
session_dead = record {
  id = "session_dead";
  matches = λ s. some (not s.session_alive);
  action = requeue_now;
  message = λ s. dead_session;
}

abbrev permission_prompt : RemediationPolicy
permission_prompt = record {
  id = "permission_prompt";
  matches = λ s. some (is_some s.blocking_prompt || has_events s.hook_events);
  action = record_input;
  message = λ s. prompt (
      or_default (or_else s.blocking_prompt (first_message s.hook_events))
        "permission prompt detected");
}

abbrev pub repeated_failure : RemediationConfig → RemediationPolicy
repeated_failure config = record {
  id = "repeated_failure";
  matches = λ s. some (ltb 0 s.nudge_count && leb config.max_attempts s.attempt_count);
  action = block;
  message = λ s. failed_attempts s.attempt_count;
}

abbrev phase_stuck : RemediationConfig → RemediationPolicy
phase_stuck config = record {
  id = "phase_stuck";
  matches = λ s. some (
      ltb 0 s.nudge_count
      && (ltb s.nudge_count config.max_nudges
          && (not s.phase_changed && leb config.phase_stuck_ms s.idle_ms)));
  action = nudge_targeted;
  message = λ s. stuck_message s.phase (idle_seconds_of s.idle_ms);
}

abbrev excessive_nudges : RemediationConfig → RemediationPolicy
excessive_nudges config = record {
  id = "excessive_nudges";
  matches = λ s. some (leb config.max_nudges s.nudge_count && not s.phase_changed);
  action = requeue_now;
  message = λ s. too_many_nudges s.nudge_count;
}

unfoldable pub builtin_policies : RemediationConfig → List RemediationPolicy
builtin_policies config =
    session_dead
    ∷ permission_prompt
    ∷ repeated_failure config
    ∷ phase_stuck config
    ∷ excessive_nudges config
    ∷ []

-- A policy whose `match` throws is skipped.
abbrev pub is_match : Option Bool → Bool
is_match none = false
is_match (some b) = b

unfoldable pub evaluate_remediation_policies :
    List RemediationPolicy → RemediationSignals → Option RemediationResult
evaluate_remediation_policies [] signals = none
evaluate_remediation_policies (policy ∷ policies) signals =
    let rest = evaluate_remediation_policies policies signals in
    if is_match (policy.matches signals)
    then some (record { policy = policy; message = policy.message signals })
    else rest

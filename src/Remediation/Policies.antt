-- ===== src/Remediation/Policies.antt =====
-- Which rule acts on an idle run.
use mathlib.Core.Path.{subst}
use orc_state.Base.{
  true, false, Option, none, some, List, [], ◌∷◌, ◌++◌, ◌≤◌, ◌<◌, ◌≡◌, ◌≢◌, refl, arith, ap, All,
  Bool-cases, inl, inr,
}
use orc_state.Remediation.{
  RemediationAction, RemediationSignals, RemediationPolicy, RemediationResult, RemediationConfig,
  block, is_match, evaluate_remediation_policies, builtin_policies, has_events,
}

-- The result is of the first policy that matches.
pub record IsFirstMatch (policies : List RemediationPolicy) (signals : RemediationSignals)
    (result : RemediationResult) : Type 0 where
  pub before : List RemediationPolicy
  pub rest : List RemediationPolicy
  pub split : policies ≡ before ++ result.policy ∷ rest
  pub matched : is_match (result.policy.matches signals) ≡ true
  pub unmatched : All (λ (p : RemediationPolicy). is_match (p.matches signals) ≡ false) before
  pub message : result.message ≡ result.policy.message signals

-- A result of the evaluation is of the first policy in the list that matches, where a policy whose
-- match throws counts as one that does not, and carries that policy's message.
evaluate_remediation_policies-IsFirstMatch :
    (policies : List RemediationPolicy) (signals : RemediationSignals) (result : RemediationResult)
    → evaluate_remediation_policies policies signals ≡ some result
    → IsFirstMatch policies signals result
unfolding evaluate_remediation_policies
evaluate_remediation_policies-IsFirstMatch [] signals result h = absurd (ground arith)
evaluate_remediation_policies-IsFirstMatch (p ∷ ps) signals result h =
    elim (Bool-cases (is_match (p.matches signals))) [
      | inl e ↦
          let found : RemediationResult = record { policy = p; message = p.message signals } in
          subst (IsFirstMatch (p ∷ ps) signals) {x = found} (ground arith) (record {
            before = [];
            rest = ps;
            split = refl;
            matched = e;
            unmatched = tt;
            message = refl;
          })
      | inr e ↦
          let r = evaluate_remediation_policies-IsFirstMatch ps signals result (ground arith) in
          record {
            before = p ∷ r.before;
            rest = r.rest;
            split = ap (λ l. p ∷ l) r.split;
            matched = r.matched;
            unmatched = (e, r.unmatched);
            message = r.message;
          }
    ]

abbrev action_of : Option RemediationResult → Option RemediationAction
action_of none = none
action_of (some r) = some r.policy.action

-- The built-in rules block a task only after a nudge, and only if it has failed as often as the
-- configuration allows, while its session is alive and waits for no input.
pub builtin_policies_block :
    (config : RemediationConfig) (s : RemediationSignals)
    → action_of (evaluate_remediation_policies (builtin_policies config) s) ≡ some block
    → (0 < s.nudge_count)
      × (config.max_attempts ≤ s.attempt_count)
      × (s.session_alive ≡ true)
      × (s.blocking_prompt ≡ none)
      × (has_events s.hook_events ≡ false)
unfolding evaluate_remediation_policies builtin_policies
builtin_policies_block config s h =
    (ground arith, ground arith, ground arith, ground arith, ground arith)

-- A run whose phase has not changed and that was nudged as often as the configuration allows is
-- always acted upon.
builtin_policies_act :
    (config : RemediationConfig) (s : RemediationSignals)
    → config.max_nudges ≤ s.nudge_count
    → s.phase_changed ≡ false
    → evaluate_remediation_policies (builtin_policies config) s ≢ none
unfolding evaluate_remediation_policies builtin_policies
builtin_policies_act config s le same h = ground arith

-- ===== src/Routing/Eligible.antt =====
-- What eligibility means, without the list of reasons.
use mathlib.Core.Path.{subst}
use orc_state.Base.{
  true, false, not, ◌&&◌, List, [], ◌∷◌, ◌≡◌, ◌≢◌, ◌⊎◌, inl, inr, refl, sym, ap, arith, Option,
  none, some, String, includes, truthy, opt_eq, or_default, ◌==◌, eq_iff, eq_refl, Bool-cases,
}
use orc_state.Model.Agent.{AgentRole, is_coordinating}
use orc_state.Routing.{
  AgentLike, TaskLike, Reason, add_reason, known_task_types, task_type_of, required_of, cap_set,
  all_included, has_required_capabilities, add_missing, owner_conflict, provider_conflict,
  basic_reasons, no_reasons, can_agent_execute_task, missing_capability,
}

no_reasons-add_reason : (rs : List Reason) (r : Reason) → no_reasons (add_reason rs r) ≡ false
no_reasons-add_reason [] r = refl
no_reasons-add_reason (x ∷ xs) r = ground arith

no_reasons-add_missing :
    (caps required : List String) (rs : List Reason)
    → no_reasons (add_missing caps required rs) ≡ (no_reasons rs && all_included caps required)
unfolding add_missing
no_reasons-add_missing caps [] rs = ground arith
no_reasons-add_missing caps (c ∷ cs) rs = ground (
  arith,
  no_reasons-add_missing caps cs rs,
  no_reasons-add_missing caps cs (add_reason rs (missing_capability c)),
  no_reasons-add_reason rs (missing_capability c),
)

-- The lemma with the guards of the source.
can_agent_execute_task-guards :
    (task : TaskLike) (agent : AgentLike)
    → can_agent_execute_task task agent ≡ (
        includes known_task_types (task_type_of task)
        && (not (is_coordinating agent.role)
            && (not (owner_conflict task agent)
                && (not (provider_conflict task agent) && has_required_capabilities task agent))))
unfolding can_agent_execute_task has_required_capabilities
can_agent_execute_task-guards task agent =
    ground
      (arith, no_reasons-add_missing (cap_set agent) (required_of task) (basic_reasons task agent))

-- Nothing is asked for, or what is given.
abbrev pub Asks : Option String → Option String → Type 0
Asks asked given = (asked ≡ none) ⊎ ((asked ≡ some "") ⊎ (asked ≡ given))

Asks-sound :
    (asked given : Option String)
    → (truthy asked && not (opt_eq asked given)) ≡ false
    → Asks asked given
Asks-sound none given h = inl refl
Asks-sound (some s) none h = inr (inl (ap some ((eq_iff s "").0 (ground arith))))
Asks-sound (some s) (some t) h = elim (Bool-cases (s == "")) [
  | inl e ↦ inr (inl (ap some ((eq_iff s "").0 e)))
  | inr e ↦ inr (inr (ap some ((eq_iff s t).0 (ground arith))))
]

opt_eq_self : (o : Option String) → opt_eq o o ≡ true
opt_eq_self none = refl
opt_eq_self (some s) = eq_refl s

Asks-complete :
    (asked given : Option String)
    → Asks asked given
    → (truthy asked && not (opt_eq asked given)) ≡ false
Asks-complete asked given (inl e) = ground arith
Asks-complete asked given (inr (inl e)) = ground arith
Asks-complete asked given (inr (inr e)) = ground (arith, opt_eq_self given)

all_included_sound :
    (caps required : List String)
    → all_included caps required ≡ true
    → (c : String) → includes required c ≡ true
    → includes caps c ≡ true
all_included_sound caps [] h c asked = absurd (ground arith)
all_included_sound caps (x ∷ xs) h c asked =
    ground (arith, eq_iff x c, all_included_sound caps xs (ground arith) c)

all_included_complete :
    (caps required : List String)
    → ((c : String) → includes required c ≡ true → includes caps c ≡ true)
    → all_included caps required ≡ true
all_included_complete caps [] h = refl
all_included_complete caps (x ∷ xs) h =
    let first : includes caps x ≡ true = h x (ground (arith, eq_refl x)) in
    let rest = all_included_complete caps xs (λ c asked. h c (ground arith)) in
    ground (arith, first, rest)

-- What makes an agent eligible for a task.
pub record Eligible (task : TaskLike) (agent : AgentLike) : Type 0 where
  pub known_type :
      (task.task_type ≡ none)
      ⊎ ((task.task_type ≡ some "implementation") ⊎ (task.task_type ≡ some "refactor"))
  pub no_master : agent.role ≢ some AgentRole.master
  pub no_scout : agent.role ≢ some AgentRole.scout
  pub owner : Asks task.owner agent.agent_id
  pub provider : Asks task.required_provider agent.provider
  pub capable :
      (c : String)
      → includes (or_default task.required_capabilities []) c ≡ true
      → includes (or_default agent.capabilities []) c ≡ true

abbrev IsKnown : Option String → Type 0
IsKnown type = includes known_task_types (or_default type "implementation") ≡ true

IsKnown-sound :
    (type : Option String)
    → IsKnown type
    → (type ≡ none) ⊎ ((type ≡ some "implementation") ⊎ (type ≡ some "refactor"))
IsKnown-sound none h = inl refl
IsKnown-sound (some s) h = elim (Bool-cases ("implementation" == s)) [
  | inl e ↦ inr (inl (ap some (sym ((eq_iff "implementation" s).0 e))))
  | inr e ↦ inr (inr (ap some (sym ((eq_iff "refactor" s).0 (ground arith)))))
]

IsKnown-complete :
    (type : Option String)
    → (type ≡ none) ⊎ ((type ≡ some "implementation") ⊎ (type ≡ some "refactor"))
    → IsKnown type
IsKnown-complete type (inl e) = subst IsKnown (sym e) refl
IsKnown-complete type (inr (inl e)) = subst IsKnown (sym e) refl
IsKnown-complete type (inr (inr e)) = subst IsKnown (sym e) refl

coordinates :
    (role : Option AgentRole)
    → role ≢ some AgentRole.master
    → role ≢ some AgentRole.scout
    → is_coordinating role ≡ false
coordinates none m s = refl
coordinates (some AgentRole.worker) m s = refl
coordinates (some AgentRole.reviewer) m s = refl
coordinates (some AgentRole.master) m s = absurd (m refl)
coordinates (some AgentRole.scout) m s = absurd (s refl)

-- An agent may execute a task exactly if the task's type is absent, `implementation` or `refactor`, the
-- agent is no master or scout, the task names no owner or this agent, and no provider or the agent's,
-- and the agent has every capability that the task requires.
pub can_agent_execute_task_lem :
    (task : TaskLike) (agent : AgentLike)
    → (can_agent_execute_task task agent ≡ true → Eligible task agent)
      × (Eligible task agent → can_agent_execute_task task agent ≡ true)
unfolding task_type_of has_required_capabilities
can_agent_execute_task_lem task agent =
    let guards = can_agent_execute_task-guards task agent in
    (
      λ yes. record {
        known_type = IsKnown-sound task.task_type (ground (arith, guards));
        no_master = λ e. ground (arith, guards);
        no_scout = λ e. ground (arith, guards);
        owner = Asks-sound task.owner agent.agent_id (ground (arith, guards));
        provider = Asks-sound task.required_provider agent.provider (ground (arith, guards));
        capable = all_included_sound (cap_set agent) (required_of task) (ground (arith, guards));
      },
      λ e. ground (
        arith,
        guards,
        IsKnown-complete task.task_type e.known_type,
        coordinates agent.role e.no_master e.no_scout,
        Asks-complete task.owner agent.agent_id e.owner,
        Asks-complete task.required_provider agent.provider e.provider,
        all_included_complete (cap_set agent) (required_of task) e.capable,
      ),
    )

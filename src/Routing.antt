-- ===== src/Routing.antt =====
-- lib/taskRouting.ts: whether an agent may execute a task, with the reasons if not. A reason is a
-- constructor where the source has a text `code:subject`.
pub mod Eligible
use orc_state.Base.{
  Bool, true, false, not, ◌&&◌, ◌||◌, List, [], ◌∷◌, ◌++◌, Option, none, some, String, ◌==◌, any_of,
  includes, if◌then◌else◌, truthy, opt_eq, or_default,
}
use orc_state.Model.Agent.{AgentRole, is_coordinating}

-- Null and undefined stand for a record without fields.
pub record AgentLike : Type 0 where
  pub agent_id : Option String
  pub role : Option AgentRole
  pub provider : Option String
  pub capabilities : Option (List String)

pub record TaskLike : Type 0 where
  pub task_type : Option String
  pub owner : Option String
  pub required_provider : Option String
  pub required_capabilities : Option (List String)

pub data Reason : Type 0 where
  unsupported_task_type : String → Reason
  role_ineligible : Option AgentRole → Reason
  reserved_owner_conflict provider_mismatch : Option String → Reason
  missing_capability : String → Reason

abbrev role_eq : Option AgentRole → Option AgentRole → Bool
role_eq (some AgentRole.worker) (some AgentRole.worker) = true
role_eq (some AgentRole.reviewer) (some AgentRole.reviewer) = true
role_eq (some AgentRole.master) (some AgentRole.master) = true
role_eq (some AgentRole.scout) (some AgentRole.scout) = true
role_eq none none = true
role_eq _ _ = false

abbrev reason_eq : Reason → Reason → Bool
reason_eq (unsupported_task_type a) (unsupported_task_type b) = a == b
reason_eq (role_ineligible a) (role_ineligible b) = role_eq a b
reason_eq (reserved_owner_conflict a) (reserved_owner_conflict b) = opt_eq a b
reason_eq (provider_mismatch a) (provider_mismatch b) = opt_eq a b
reason_eq (missing_capability a) (missing_capability b) = a == b
reason_eq _ _ = false

abbrev pub add_reason : List Reason → Reason → List Reason
add_reason reasons reason =
    if any_of (λ r. reason_eq r reason) reasons then reasons else reasons ++ reason ∷ []

-- `TASK_TYPES` of lib/constants.ts.
abbrev pub known_task_types : List String
known_task_types = "implementation" ∷ "refactor" ∷ []

unfoldable pub task_type_of : TaskLike → String
task_type_of task = or_default task.task_type "implementation"

abbrev pub required_of : TaskLike → List String
required_of task = or_default task.required_capabilities []

abbrev pub cap_set : AgentLike → List String
cap_set agent = or_default agent.capabilities []

abbrev pub all_included : List String → List String → Bool
all_included caps [] = true
all_included caps (c ∷ cs) = includes caps c && all_included caps cs

unfoldable pub has_required_capabilities : TaskLike → AgentLike → Bool
has_required_capabilities task agent = all_included (cap_set agent) (required_of task)

-- The loop over the required capabilities.
unfoldable pub add_missing : List String → List String → List Reason → List Reason
add_missing caps [] reasons = reasons
add_missing caps (c ∷ cs) reasons =
    add_missing caps cs
      (if includes caps c then reasons else add_reason reasons (missing_capability c))

abbrev add_if : Bool → Reason → List Reason → List Reason
add_if test reason reasons = if test then add_reason reasons reason else reasons

abbrev pub owner_conflict : TaskLike → AgentLike → Bool
owner_conflict task agent = truthy task.owner && not (opt_eq task.owner agent.agent_id)

abbrev pub provider_conflict : TaskLike → AgentLike → Bool
provider_conflict task agent =
    truthy task.required_provider && not (opt_eq task.required_provider agent.provider)

-- The reasons before the loop over capabilities. The default role `worker` is eligible.
abbrev pub basic_reasons : TaskLike → AgentLike → List Reason
basic_reasons task agent =
    add_if (provider_conflict task agent) (provider_mismatch task.required_provider) (
      add_if (owner_conflict task agent) (reserved_owner_conflict task.owner) (
        add_if (is_coordinating agent.role) (role_ineligible agent.role) (
          add_if (not (includes known_task_types (task_type_of task)))
            (unsupported_task_type (task_type_of task)) [])))

abbrev pub no_reasons : List Reason → Bool
no_reasons [] = true
no_reasons (_ ∷ _) = false

unfoldable pub evaluate_task_eligibility : TaskLike → AgentLike → List Reason
unfolding add_missing task_type_of
evaluate_task_eligibility task agent =
    add_missing (cap_set agent) (required_of task) (basic_reasons task agent)

unfoldable pub can_agent_execute_task : TaskLike → AgentLike → Bool
unfolding evaluate_task_eligibility
can_agent_execute_task task agent = no_reasons (evaluate_task_eligibility task agent)

abbrev is_unsupported : Reason → Bool
is_unsupported (unsupported_task_type _) = true
is_unsupported _ = false

abbrev is_role_ineligible : Reason → Bool
is_role_ineligible (role_ineligible _) = true
is_role_ineligible _ = false

abbrev typed_only : String → TaskLike
typed_only type = record {
  task_type = some type;
  owner = none;
  required_provider = none;
  required_capabilities = none;
}

unfoldable pub can_agent_execute_task_type : String → AgentLike → Bool
unfolding evaluate_task_eligibility
can_agent_execute_task_type type agent =
    let reasons = evaluate_task_eligibility (typed_only type) agent in
    if any_of is_unsupported reasons then false else not (any_of is_role_ineligible reasons)

-- ===== src/Dispatch/RoundRobin.antt =====
-- Automatic delegation goes round the eligible agents.
use orc_state.Base.{
  List, [], ◌∷◌, Option, some, String, ℕ, zero, suc, ◌<◌, ◌≡◌, arith, length, map, opt_eq,
  Bool-cases, Option-cases, inl, inr,
}
use orc_state.Model.Agent.{Agent}
use orc_state.Model.Claim.{Claim}
use orc_state.Routing.{TaskLike}
use orc_state.Dispatch.{index_of, select_auto_target}

abbrev pub ids : List Agent → List String
ids agents = map (λ a. a.agent_id) agents

-- `n` delegations of the same task in a row, over the same agents and claims: the agent assigned
-- last.
abbrev pub delegate_times :
    ℕ → TaskLike → String → List Agent → List Claim → Option String → Option String
delegate_times zero task type agents claims last = last
delegate_times (suc n) task type agents claims last =
    (select_auto_target task type agents claims (delegate_times n task type agents claims last)).1

-- The search finds positions of the list only.
index_of-lt :
    (last : Option String) (agents : List Agent) {k : ℕ}
    → index_of last agents ≡ some k
    → k < length agents
index_of-lt last [] h = absurd (ground arith)
index_of-lt last (a ∷ others) {k} h = elim (Bool-cases (opt_eq (some a.agent_id) last)) [
  | inl here ↦ ground arith
  | inr past ↦ elim (Option-cases (index_of last others)) [
    | inl none_there ↦ absurd (ground arith)
    | inr (i, there) ↦ ground (arith, index_of-lt last others {k = i} there)
  ]
]

-- ===== src/Model/Agent.antt =====
-- types/agents.ts: the registered agents, with the fields that dispatch and remediation read.
use orc_state.Base.{Bool, true, false, Option, some, String, List}
use orc_state.Base.Time.{Stamp}

pub data AgentStatus : Type 0 where
  idle running offline dead : AgentStatus

pub data AgentRole : Type 0 where
  worker reviewer master scout : AgentRole

pub record Agent : Type 0 where
  pub agent_id : String
  pub provider : String
  pub status : AgentStatus
  pub role : Option AgentRole
  pub capabilities : Option (List String)
  pub session_handle : Option String
  pub last_heartbeat_at : Option Stamp

-- `status !== 'offline' && status !== 'dead'`.
abbrev pub is_reachable : AgentStatus → Bool
is_reachable AgentStatus.offline = false
is_reachable AgentStatus.dead = false
is_reachable _ = true

-- `role === 'master' || role === 'scout'`; an absent role is neither.
abbrev pub is_coordinating : Option AgentRole → Bool
is_coordinating (some AgentRole.master) = true
is_coordinating (some AgentRole.scout) = true
is_coordinating _ = false

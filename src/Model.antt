-- ===== src/Model.antt =====
-- The data of the program: types/claims.ts, types/backlog.ts, types/agents.ts.
-- An optional or nullable field is an `Option`; a reference or id is a text; a timestamp is a
-- `Stamp`; counters are natural numbers.
pub mod Claim
pub mod Task
pub mod Agent

-- ===== src/Store.antt =====
-- lib/projectTaskStore.ts: the task store of a project (runtime.db).
pub mod Schema
pub mod Transition
pub mod Binding
pub mod Tables
pub mod Legality
pub mod Effects
pub mod OpenRuns
pub mod OneRun
pub mod Claiming
pub mod Plans

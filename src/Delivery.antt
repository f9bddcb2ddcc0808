-- ===== src/Delivery.antt =====
-- lib/commandDelivery.ts: durable commands to the session of a run.
pub mod Schema
pub mod Queue
pub mod Sending
pub mod Acks
pub mod Reconcile
pub mod Phases
pub mod Moves
pub mod Edges
pub mod Refine
pub mod Standing
pub mod Recover
pub mod Life
pub mod History
pub mod Enqueued
pub mod Orphans
pub mod Reach
pub mod Repeat
pub mod Closed
pub mod Frames
pub mod Dispatcher
pub mod Ticks
pub mod Rounds
pub mod Ending

-- ===== src/Examples.antt =====
-- Concrete runs of the model, and the theorems applied to concrete inputs.
mod Store
mod Scheduling
mod Claims
mod Commands
mod Lifecycle
mod Manager
mod Offsets
mod Supervision

-- ===== src/Kernel/Activations.antt =====
-- packages/kernel/src/invariants.ts: whether an Activation may still act.
pub mod Validity
pub mod Actors
pub mod Columns
pub mod Live

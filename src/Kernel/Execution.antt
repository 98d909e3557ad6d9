-- ===== src/Kernel/Execution.antt =====
-- packages/kernel/src/execution.ts: Activations, provider attempts and the activity of a Run.
pub mod Activations
pub mod Attempts
pub mod Activities
pub mod Dispatch
pub mod Invariants
pub mod Starts
pub mod Checks
pub mod Kept
pub mod Solo
pub mod Progress
pub mod Settled
pub mod Numbered

-- ===== src/Kernel/Attentions.antt =====
-- packages/kernel/src/attentions.ts, with the domain leases of invariants.ts.
pub mod Rows
pub mod Domains
pub mod Commands
pub mod Admission
pub mod Decisions
pub mod Resolutions
pub mod Frames
pub mod Owned
pub mod Dispatch
pub mod Steps
pub mod Fences
pub mod Exclusive
pub mod Stages
pub mod Limits
pub mod Admitted
pub mod Closed
pub mod Decided
pub mod Claimed
pub mod Answered
pub mod Repeated

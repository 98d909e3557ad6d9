-- ===== src/Kernel/Leases.antt =====
-- packages/kernel/src/worktree-writer-leases.ts: one writer at a time for each Worktree.
pub mod Rows
pub mod Authority
pub mod Commands
pub mod Quarantine
pub mod Sound
pub mod Statements
pub mod Authorized
pub mod Grants
pub mod Exclusion
pub mod Cached
pub mod Dispatch
pub mod Thrown
pub mod Durable
pub mod Steps
pub mod Changes
pub mod Writes
pub mod Fencing

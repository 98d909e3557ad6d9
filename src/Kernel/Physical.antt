-- ===== src/Kernel/Physical.antt =====
-- packages/kernel/src/physical-worktrees.ts: registered Worktrees, and the processes that run in them.
pub mod Idle
pub mod Rows
pub mod Authority
pub mod Commands
pub mod Register
pub mod Disjoint
pub mod Advances
pub mod Known
pub mod Frames
pub mod Statements
pub mod Checked
pub mod Monotone
pub mod Calm
pub mod Permitted
pub mod Mutates

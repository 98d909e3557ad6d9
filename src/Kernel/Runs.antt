-- ===== src/Kernel/Runs.antt =====
-- packages/kernel/src/runs.ts: the life of a Run.
pub mod Events
pub mod Commands
pub mod Inputs
pub mod Supersession
pub mod Completion
pub mod Inbox
pub mod Publishing
pub mod Completed
pub mod Ended
pub mod Refused
pub mod Closed
pub mod Paused

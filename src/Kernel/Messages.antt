-- ===== src/Kernel/Messages.antt =====
-- packages/kernel/src/collaboration.ts: messages in Threads.
pub mod Scope
pub mod Create
pub mod Opens
pub mod Stages
pub mod Published
pub mod Revisions
pub mod Revised
pub mod Deleted

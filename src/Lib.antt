-- ===== src/Lib.antt =====
-- The kernel of Torsor, a local coordination server for agents: commands that run one after
-- another, each in a transaction on one SQLite database (packages/kernel/src).
--
-- Parts. A command is checked and executed by a handler, chosen by #dispatchCommand of
-- packages/kernel/src/kernel.ts, in a transaction that a thrown error rolls back unless the error
-- is durable. Writer leases (worktree-writer-leases.ts) let one runtime at a time write to a
-- Worktree: a row per Worktree with a generation and a fencing token, acquired, renewed, released,
-- quarantined and resolved. Physical Worktrees (physical-worktrees.ts) must be idle for a lease to
-- change hands. The outbox (outbox.ts) delivers events in the order of their sequence numbers: a
-- runtime claims the oldest pending ones under a lease, and acknowledges the whole batch. A Run
-- (runs.ts) is worked on by Activations (invariants.ts), which lose their authority when the Run
-- ends or waits. An Attention (attentions.ts) asks an Agent to look at a Message; its holder has a
-- lease on the execution domain, and its Activation ignores it or makes a Run of it, within the
-- limits of causal-limits.ts. Messages (collaboration.ts) advance the cursor of their Thread and
-- open Attentions for the Agents they name.
--
-- Files. Prelude: shared names, lists, tests and texts. Kernel/Errors, Values, Results, Rows and
-- World: errors.ts, values.ts, the views of mappings.ts, the rows of schema.ts, the database and
-- clock of database.ts. Kernel/Action: statements on a state that may throw, with Hoare triples
-- for them in Action/Triples. Kernel/Guards and ReadOnly: the checks of invariants.ts, and
-- statements that only read. Kernel/Transaction: #writerCheck. Kernel/Activations: the validity of
-- an Activation and its actors, from invariants.ts, and its description in Live. Kernel/Leases:
-- worktree-writer-leases.ts in Rows, Authority, Commands, Quarantine, Cached and Dispatch, and its
-- theorems beside them. Kernel/Outbox: outbox.ts in Rows, Claim, Acknowledge, Delivery and
-- CachedClaim, its abstract view as a queue in Queue, and its theorems in Claimed, Acknowledged,
-- Delivered and Reclaimed, with the checks of an acknowledgement in Held. Kernel/Physical:
-- physical-worktrees.ts in Idle, Rows, Authority, Commands and Register; Advances says how
-- executions follow one another, Known, Frames and Statements prove it of each statement, and
-- Checked, Monotone, Mutates and Disjoint of the commands and checks, with what the check of the
-- authority to write has checked in Calm and Permitted. Kernel/Runs: cancellation, failure and
-- waiting of runs.ts in Commands, what they write beside the Run in Events, and what an ended or
-- waiting Run leaves in Ended, Closed and Paused, and which commands a Run refuses that has ended
-- in Refused (a late output, recordLateOutput, is still taken); completeRun in Completion, with
-- the search for a cycle in Supersession, and what it leaves in Publishing and Completed;
-- createRunInput in Inputs; sendToRun, withdrawRunInput and publishRunReply in Inbox.
-- Kernel/Attentions: attentions.ts with the domain leases of invariants.ts in Rows, Domains,
-- Commands, Decisions, Resolutions and Dispatch, causal-limits.ts in Admission, and their theorems
-- beside them. Kernel/Messages: read scopes and Thread cursors of invariants.ts in Scope,
-- createMessage, startThread and replyToThread of collaboration.ts in Create, editMessage and
-- deleteMessage in Revisions; Opens, Stages and Published say what createMessage stores, Revised
-- and Deleted what a new revision leaves. Kernel/Execution: execution.ts in Activations, Attempts,
-- Activities and Dispatch; Invariants says what a condition needs so that every command keeps it,
-- which Starts, Checks and Kept prove, and Solo, Progress, Settled and Numbered are such
-- conditions. Kernel/Frames: the statements that any condition survives. Tests: runs on small
-- databases.
--
-- A function name in snake_case models the function of that name in camelCase; a function that
-- ends in `_at` is the part of a command after the checks of its arguments. A row is a record,
-- NULL is `none`, instants and numbers are natural numbers, instants in milliseconds. A state is
-- the database with the host's clock and source of fresh names, which are arbitrary sequences of
-- answers. A thrown error keeps the state it was thrown in, which the transaction then rolls back.
-- The functions of node:path are a record of functions, of which nothing is assumed. Loops run
-- over lists; the walk of the search for a cycle has fuel, one step more than the Map has entries,
-- and never runs out of it.
--
-- Not modelled: SQL text, foreign keys, unique indexes other than those of executions, Worktrees,
-- provider attempts and revisions, the triggers of schema.ts (the counts of unsettled attempts in
-- domain fences are only read), projections and history, artifacts, JSON printing, the message
-- texts and details of errors, and the packages around the kernel.
pub mod Prelude
pub mod Kernel
pub mod Tests

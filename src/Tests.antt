-- ===== src/Tests.antt =====
-- Runs of the commands on small databases, and the theorems at them.
mod Worlds
mod LeaseRuns
mod OutboxRuns
mod DeliveryRuns
mod ExecutionRuns
mod ActivationRuns
mod EndingRuns
mod AttentionRuns
mod CompletionRuns
mod AttemptRuns
mod RevisionRuns

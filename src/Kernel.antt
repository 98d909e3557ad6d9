-- ===== src/Kernel.antt =====
-- packages/kernel: the durable kernel, its state and its commands.
pub mod Errors
pub mod Action
pub mod Values
pub mod Rows
pub mod World
pub mod Results
pub mod Guards
pub mod ReadOnly
pub mod Frames
pub mod Activations
pub mod Transaction
pub mod Physical
pub mod Leases
pub mod Outbox
pub mod Runs
pub mod Attentions
pub mod Messages
pub mod Execution

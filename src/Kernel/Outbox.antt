-- ===== src/Kernel/Outbox.antt =====
-- packages/kernel/src/outbox.ts: durable events, delivered in the order of their sequence numbers.
pub mod Rows
pub mod Queue
pub mod Claim
pub mod Acknowledge
pub mod Loops
pub mod Claimed
pub mod Held
pub mod Acknowledged
pub mod Delivery
pub mod Delivered
pub mod CachedClaim
pub mod Reclaimed

-- ===== src/Durable/Safety.antt =====
-- The tables after each transaction of the repository.
pub mod Owned
pub mod Ends
pub mod Work
pub mod Manage
pub mod Recover
pub mod RecoverAll
pub mod Stamps
pub mod Claim
pub mod Enqueue
pub mod Outbox
pub mod Append

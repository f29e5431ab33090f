-- ===== src/Durable/Behaviour.antt =====
-- What the transactions of the repository do.
pub mod Announce
pub mod Ownership
pub mod Repeats
pub mod Failures
pub mod Queue
pub mod Leases
pub mod Messages

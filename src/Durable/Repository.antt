-- ===== src/Durable/Repository.antt =====
-- apps/api/app/async_runtime/repository.py: each method is one transaction, a function from the
-- tables to the new tables and a result; an exception rolls back, so it has no new tables.
pub mod Common
pub mod Enqueue
pub mod Recover
pub mod Claim
pub mod Work
pub mod Manage
pub mod Outbox

-- ===== src/Durable.antt =====
-- The durable job runtime (apps/api/app/async_runtime): jobs, leased attempts and the outbox.
pub mod Domain
pub mod Rows
pub mod Repository
pub mod Invariant
pub mod Safety
pub mod System
pub mod Dispatcher
pub mod Behaviour
mod Samples
mod Tests

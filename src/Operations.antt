-- ===== src/Operations.antt =====
-- Batches of catalogue operations (apps/api/app/operations).
pub mod Rows
pub mod Request
pub mod Apply
pub mod Batches
pub mod Due
pub mod Promotions
pub mod Effects
pub mod Atomic
pub mod Replay
pub mod Stale
pub mod Ranked
mod Tests

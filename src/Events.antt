-- ===== src/Events.antt =====
-- Snapshots, exposures, events and profiles (apps/api/app/events/service.py).
pub mod Rows
pub mod Snapshots
pub mod Pages
pub mod Titles
pub mod Profile
pub mod Submit
pub mod Batches
pub mod Bounds
pub mod Consistent
pub mod Moved
pub mod Checked
pub mod Outcome
pub mod Kept
pub mod System
pub mod Replay
pub mod Counts
pub mod Recorded
mod Tests

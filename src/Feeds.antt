-- ===== src/Feeds.antt =====
-- Ranking of a feed (apps/api/app/feeds).
pub mod Candidates
pub mod Merge
pub mod Topics
pub mod Mmr
pub mod Placement
pub mod Fill
pub mod Slots
pub mod Rules
pub mod Selection
pub mod Returns
pub mod Base64
pub mod Bytes
pub mod Cursor
pub mod CursorTrip
mod CursorTests
mod Tests

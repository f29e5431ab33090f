-- ===== src/Alerts.antt =====
-- Metric alerts (apps/api/app/alerts).
pub mod Domain
pub mod Reader
pub mod Rows
pub mod Service
pub mod Open
pub mod Moves
mod Tests

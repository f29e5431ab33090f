-- ===== src/Registry.antt =====
-- The registry of model versions and training jobs (apps/api/app/models_registry).
pub mod Rows
pub mod Repository
pub mod Jobs
pub mod Activation
pub mod OneActive
pub mod Publish
pub mod Cutover
pub mod JobKeys
pub mod Kept
pub mod System
pub mod Moves
pub mod Lifecycle
pub mod Progress
mod Tests

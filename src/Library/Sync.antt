-- ===== src/Library/Sync.antt =====
-- The decisions of the sync actor, which keeps the Library in step with the watched folders
-- (backend/src/library/sync/step.rs).
pub mod State
pub mod Step
pub mod Ending
pub mod Wakeups
pub mod Pending
pub mod Protocol
pub mod Changes
pub mod Paths
pub mod Gone
pub mod Release

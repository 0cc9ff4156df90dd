-- ===== src/Library.antt =====
-- The Library of the backend (backend/src/library).
pub mod Sync
pub mod Relink

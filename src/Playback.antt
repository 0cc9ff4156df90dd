-- ===== src/Playback.antt =====
-- backend/src/audio/playback: the playback queue and what the worker does with it.
pub mod Queue
pub mod Worker

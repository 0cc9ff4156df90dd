-- ===== src/Playback/Worker.antt =====
-- The playback worker: it owns the queue, the transport and every operation in flight
-- (backend/src/audio/playback/worker.rs and the files of worker/).
pub mod Types
pub mod Outside
pub mod State
pub mod Tracks
pub mod Rows
pub mod Publish
pub mod Transport
pub mod Failed
pub mod Start
pub mod Seek
pub mod Prefetch
pub mod Progress
pub mod Failure
pub mod Commands
pub mod Handle
pub mod Deadline
pub mod Failures
pub mod Late
pub mod Bounds
pub mod Resolving
pub mod Balance

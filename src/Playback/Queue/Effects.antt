-- ===== src/Playback/Queue/Effects.antt =====
-- What each operation of the queue does, read through `history`, `current_entry` and `upcoming`.
pub mod Views
pub mod Edits
pub mod Moves
pub mod Additions
pub mod Shuffle
pub mod Restore
pub mod Advance
pub mod Steps

-- ===== src/Playback/Queue.antt =====
-- backend/src/audio/playback/queue.rs: the playback queue as a pure data structure. `State` holds
-- the queue and what is read from it, `Edit` the operations that need no random number, `Order`
-- those that shuffle; the other modules prove what the operations keep and do.
pub mod State
pub mod Rand
pub mod Edit
pub mod Ids
pub mod Move
pub mod Order
pub mod Invariant
pub mod Commands
pub mod Effects

-- ===== src/Lib.antt =====
-- Verification of the backend of Nice Audio Player, a desktop player of a local music library.
--
-- The backend (backend/src) owns the Library, the playback and the settings. Modelled here are four
-- of its deciding parts.
--
-- Playback/Queue is the playback queue (backend/src/audio/playback/queue.rs), which the playback
-- worker owns for its whole life:
--   State       the fields of `PlaybackQueue`, its entries, its ids (backend/src/ids.rs) and its
--               read-only operations
--   Rand        the random number generator, a parameter
--   Edit, Move, Order
--               the operations that change the queue, under the names that they have in the source;
--               a part of an operation that has a name of its own here is a helper that it calls
--   Ids, Invariant
--               the invariant `IsValid`, and each operation under it
--   Commands    all operations as one command, and the queues that commands reach
--   Effects     what each operation does to the played, the current and the upcoming entries
-- An operation on `&mut self` takes the queue and returns its result with the queue it leaves; one
-- that may fail or panic returns an `Outcome`, and an index that `Vec` would panic at is a panic of
-- the model (Vec.antt, Slices.antt for backend/src/slices.rs). Shared slices (`Arc<[QueueEntry]>`)
-- are copied before they are changed in the source, so a list models them. Ids are u64 and
-- saturate; positions are numbers, and where the source saturates a sum the model does too.
--
-- Playback/Worker is the playback worker (backend/src/audio/playback/worker.rs and worker/,
-- session.rs, resolver.rs, snapshot.rs), which owns the queue, the transport and every operation in
-- flight:
--   Types       failures, errors and what they are mapped to
--   Outside     what the worker calls and does not own, as parameters: the clock, the database, the
--               threads that read and decode files, the device and its streams
--   State       the fields of `PlaybackWorker` and of the transport, the snapshots, and the log of
--               what the worker does to others
--   Tracks      resolver.rs and the loops that read the queue's tracks
--   Rows, Publish
--               worker/publish.rs, the rendering of snapshots, and the rows of the queue that one shows
--   Transport, Failed, Start, Seek, Prefetch, Progress, Failure
--               the handlers of worker/, under their names
--   Commands, Handle
--               `handle_command`, `handle_event`, `handle` and `shutdown`
--   Deadline    `next_deadline`
--   Bounds, Resolving, Failures, Late
--               positions, the loop that reads the current item, starts that fail, and late events
--   Balance     the replies, decode threads and loads that the worker is answerable for
-- A handler takes the worker and returns it. Replies, pipelines, loads and streams are known by
-- their numbers; the log records that a caller asked and was answered, that a decode thread was
-- opened and cancelled, and that a load was spawned and joined or cancelled. A helper of a handler
-- has a name of its own where it looks at an answer from outside. `begin_start` and `fail_start`
-- call each other: `fail_start_with` takes the one as an argument, and the failure of a thread,
-- with which `begin_start` calls it, never starts anything. What a stream does when it is dropped,
-- the meter and the logging are left out, and so is the sleep of `run` until `next_deadline`: ticks
-- come at any time. A panic is a flag of the worker: it is set where a step on the queue panics,
-- and where `split_at` would on the rows of a snapshot. The system is taken to give a thread
-- whenever one is asked for: the `expect` on spawning a decode thread
-- (backend/src/audio/decode_worker.rs) is a part of opening a pipeline, and is not modelled.
-- Timebase is backend/src/audio/timebase.rs, the scaling of frames and milliseconds; Rounding is about
-- how it rounds.
--
-- Library/Sync is the transition of the sync actor (backend/src/library/sync/step.rs), which decides
-- when folders are scanned, when artwork is collected and which watchers are attached:
--   State, Step the state, the inputs, the effects and `State::step`; a function returns the state and
--               the effects that it pushes
--   Ending      the ways in which `advance` ends
--   Wakeups, Pending
--               the instants at which the actor asks to be woken
--   Protocol    its effects against a monitor of the scanner
--   Gone, Release
--               a folder that is taken out of the Library
--   Changes, Paths
--               what a change in a folder leads to
-- Its maps are lists in the order of their keys (BTree.antt). Root numbers are row ids, which are
-- above zero, and instants are nanoseconds; neither overflows in the model. Paths and their order
-- are a parameter. Input arrives in any order and at any time.
--
-- Library/Relink is `pair_moves` (backend/src/library/scanner/relink.rs), which recognises the
-- files that were moved or renamed between two scans: Candidates, Claims and Matches are about the
-- pairs that it makes. The strings it compares are lists of code points, and its numbers are not
-- negative.
--
-- Prelude holds what the modules share: tests on numbers, options, lists, and counting, by which two
-- orders are said to have the same items. Tests holds the concrete runs.
--
-- The loops of `resolve_current` and `prune_unavailable` run on fuel, one turn for each entry of the
-- queue and one more: each turn but the last takes an entry out of it. All other recursion is on
-- lists.
--
-- Not modelled: the threads and channels around these parts, the decoder, the output and the
-- meters (calls of other libraries, and floating point), the database, the file system, the host
-- and the renderer. Tracks are known to the queue by their ids only, as in the source.
pub mod Prelude
pub mod Slices
pub mod Vec
pub mod BTree
pub mod Timebase
pub mod Playback
pub mod Library
pub mod Tests

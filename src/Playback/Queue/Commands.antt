-- ===== src/Playback/Queue/Commands.antt =====
-- Every operation of the queue as one command, and the queues that commands reach.
use nice_audio_player.Prelude.{◌≤◌, ◌≡◌, ◌<◌, ℕ, true, length, List, Bool}
use nice_audio_player.Playback.Queue.State.{
  QueueError, PlaybackRepeatMode, AdvanceReason, Outcome, ok, err, panicked, PlaybackQueue, new,
  u64_max,
}
use nice_audio_player.Playback.Queue.Rand.{Rand}
use nice_audio_player.Playback.Queue.Edit.{clear, clear_upcoming, remove_entries, remove_upcoming}
use nice_audio_player.Playback.Queue.Move.{move_upcoming, jump_to, enqueue, set_repeat}
use nice_audio_player.Playback.Queue.Order.{set_shuffle, advance, replace, restore}
use nice_audio_player.Playback.Queue.Invariant.{IsValid, Leaves, new-IsValid}
use nice_audio_player.Playback.Queue.Invariant.Edits.{
  clear-IsValid, clear_upcoming-IsValid, remove_entries-IsValid,
}
use nice_audio_player.Playback.Queue.Invariant.Removal.{remove_upcoming-IsValid}
use nice_audio_player.Playback.Queue.Invariant.Moves.{move_upcoming-IsValid, jump_to-IsValid}
use nice_audio_player.Playback.Queue.Invariant.Additions.{
  next_after, enqueue-IsValid, set_repeat-IsValid,
}
use nice_audio_player.Playback.Queue.Invariant.Shuffles.{Good, set_shuffle-IsValid}
use nice_audio_player.Playback.Queue.Invariant.Advances.{advance-IsValid}
use nice_audio_player.Playback.Queue.Invariant.Replacing.{replace-IsValid, restore-IsValid}

pub data Command : Type 0 where
  replaces : List ℕ → ℕ → Command
  clears : Command
  clears_upcoming : Command
  removes_entries : List ℕ → Command
  removes_upcoming : ℕ → Command
  moves_upcoming : ℕ → ℕ → Command
  jumps_to : ℕ → Command
  enqueues : List ℕ → Bool → Command
  sets_repeat : PlaybackRepeatMode → Command
  sets_shuffle : Bool → Command
  advances : AdvanceReason → Command

-- What the callers see to: the counter of ids does not run out, and items are put after the
-- current one only while there is a current one (`handle_command` of playback/worker.rs starts
-- the items otherwise).
abbrev pub Allowed : PlaybackQueue → Command → Type 0
Allowed q (replaces ts start) = next_after q ts ≤ u64_max
Allowed q (enqueues ts next) =
    (next_after q ts ≤ u64_max) × (next ≡ true → q.current < length q.arranged)
Allowed q _ = Unit

module _ (r : Rand) where
  open r use {Gen}

  abbrev done : {A : Type 0} → Gen → Outcome PlaybackQueue A → Outcome (PlaybackQueue × Gen) Unit
  done g (ok _ q) = ok tt (q, g)
  done g (err e q) = err e (q, g)
  done g panicked = panicked

  abbrev drawn : {A : Type 0} → Outcome (PlaybackQueue × Gen) A → Outcome (PlaybackQueue × Gen) Unit
  drawn (ok _ s) = ok tt s
  drawn (err e s) = err e s
  drawn panicked = panicked

  unfoldable pub apply : Command → PlaybackQueue → Gen → Outcome (PlaybackQueue × Gen) Unit
  apply (replaces ts start) q g = replace r q ts start g
  apply clears q g = ok tt (clear q, g)
  apply clears_upcoming q g = ok tt ((clear_upcoming q).1, g)
  apply (removes_entries ids) q g = ok tt ((remove_entries q ids).1, g)
  apply (removes_upcoming id) q g = done g (remove_upcoming q id)
  apply (moves_upcoming id to) q g = done g (move_upcoming q id to)
  apply (jumps_to id) q g = done g (jump_to q id)
  apply (enqueues ts next) q g = done g (enqueue q ts next)
  apply (sets_repeat mode) q g = ok tt ((set_repeat q mode).1, g)
  apply (sets_shuffle enabled) q g = drawn (set_shuffle r q enabled g)
  apply (advances reason) q g = drawn (advance r q reason g)

  done-Good :
      {A : Type 0} (g : Gen) (o : Outcome PlaybackQueue A)
      → Leaves IsValid o
      → Leaves (Good r) (done g o)
  done-Good g (ok a q) h = h
  done-Good g (err e q) h = h
  done-Good g panicked h = h

  drawn-Good :
      {A : Type 0} (o : Outcome (PlaybackQueue × Gen) A)
      → Leaves (Good r) o
      → Leaves (Good r) (drawn o)
  drawn-Good (ok a s) h = h
  drawn-Good (err e s) h = h
  drawn-Good panicked h = h

  -- In a valid queue no allowed operation panics, and each, also where it fails, leaves a valid
  -- queue behind.
  pub apply-IsValid :
      (c : Command) (q : PlaybackQueue) (g : Gen)
      → IsValid q
      → Allowed q c
      → Leaves (Good r) (apply c q g)
  unfolding apply
  apply-IsValid (replaces ts start) q g v room = replace-IsValid r q ts start g v room
  apply-IsValid clears q g v _ = clear-IsValid q v
  apply-IsValid clears_upcoming q g v _ = clear_upcoming-IsValid q v
  apply-IsValid (removes_entries ids) q g v _ = remove_entries-IsValid q ids v
  apply-IsValid (removes_upcoming id) q g v _ = done-Good g _ (remove_upcoming-IsValid q id v)
  apply-IsValid (moves_upcoming id to) q g v _ = done-Good g _ (move_upcoming-IsValid q id to v)
  apply-IsValid (jumps_to id) q g v _ = done-Good g _ (jump_to-IsValid q id v)
  apply-IsValid (enqueues ts next) q g v (room, has_current) =
      done-Good g _ (enqueue-IsValid q ts next v room has_current)
  apply-IsValid (sets_repeat mode) q g v _ = set_repeat-IsValid q mode v
  apply-IsValid (sets_shuffle enabled) q g v _ = drawn-Good _ (set_shuffle-IsValid r q enabled g v)
  apply-IsValid (advances reason) q g v _ = drawn-Good _ (advance-IsValid r q reason g v)

  -- The state that an outcome leaves, where it is no panic.
  pub data Ends {A : Type 0} : Outcome (PlaybackQueue × Gen) A → PlaybackQueue → Type 0 where
    by_ok : {a : A} {q : PlaybackQueue} {g : Gen} → Ends (ok a (q, g)) q
    by_err : {e : QueueError} {q : PlaybackQueue} {g : Gen} → Ends (err e (q, g)) q

  -- The queues that the player reaches from a new one, a saved queue being put back included.
  pub data Reachable : PlaybackQueue → Type 0 where
    started : (repeat : PlaybackRepeatMode) (shuffle : Bool) → Reachable (new repeat shuffle)
    stepped :
        {q q' : PlaybackQueue} (c : Command) (g : Gen)
        → Reachable q
        → Allowed q c
        → Ends (apply c q g) q'
        → Reachable q'
    restored :
        {q previous q' : PlaybackQueue} (g : Gen)
        → Reachable q
        → Reachable previous
        → Ends (restore r q previous g) q'
        → Reachable q'

  Ends-IsValid :
      {A : Type 0} {o : Outcome (PlaybackQueue × Gen) A} {q : PlaybackQueue}
      → Ends o q
      → Leaves (Good r) o
      → IsValid q
  Ends-IsValid by_ok h = h
  Ends-IsValid by_err h = h

  -- Every queue that the player reaches is valid: distinct ids below the counter, a shuffled order
  -- that holds exactly the arranged entries and is there exactly while shuffle is on (unless the
  -- queue is empty), and a position no further than just past the end.
  pub Reachable-IsValid : {q : PlaybackQueue} → Reachable q → IsValid q
  Reachable-IsValid (started repeat shuffle) = new-IsValid repeat shuffle
  Reachable-IsValid (stepped {q = q} c g before allowed end) =
      Ends-IsValid end (apply-IsValid c q g (Reachable-IsValid before) allowed)
  Reachable-IsValid (restored {q = q} {previous = p} g now before end) =
      Ends-IsValid end (restore-IsValid r q p g (Reachable-IsValid before))

-- ===== src/Playback/Queue/Invariant.antt =====
-- The invariant of the queue
-- (backend/src/audio/playback/queue.rs).
pub mod Edits
pub mod Removal
pub mod Moves
pub mod Additions
pub mod Shuffles
pub mod Advances
pub mod Replacing
use nice_audio_player.Prelude.{
  none, Option, ℕ, suc, ◌-◌, ◌≤◌, ◌≡◌, refl, ap, Bool, false, not, some, arith, unwrap_or, is_some,
  count_if, SameItems, SameItems-length, length,
}
use nice_audio_player.Playback.Queue.State.{
  PlaybackRepeatMode, Outcome, ok, err, panicked, QueueEntry, PlaybackQueue, new, is_empty,
  play_order, has_id,
}
use nice_audio_player.Playback.Queue.Ids.{Unique}

-- The ids are distinct and below the counter, the play order holds exactly the arranged entries,
-- the position is inside the order or just past its end, and a queue that is not empty has a
-- shuffled order exactly while shuffle is on.
pub record IsValid (q : PlaybackQueue) : Type 0 where
  pub unique : Unique q.arranged
  pub fresh : (i : ℕ) → q.next_item_id ≤ i → count_if (has_id i) q.arranged ≡ 0
  pub same : SameItems (unwrap_or q.shuffled q.arranged) q.arranged
  pub within : q.current ≤ length q.arranged
  pub shown : is_empty q ≡ false → is_some q.shuffled ≡ q.shuffle

-- A method that does not panic leaves a good state behind, whether it succeeds or fails.
abbrev pub Leaves : {S A : Type 0} → (S → Type 0) → Outcome S A → Type 0
Leaves P (ok a s) = P s
Leaves P (err e s) = P s
Leaves P panicked = ⊥

-- The same of a step that cannot fail, `none` being a panic.
abbrev pub Yields : {S : Type 0} → (S → Type 0) → Option S → Type 0
Yields P none = ⊥
Yields P (some s) = P s

pub new-IsValid : (repeat : PlaybackRepeatMode) (shuffle : Bool) → IsValid (new repeat shuffle)
unfolding new is_empty
new-IsValid repeat shuffle = record {
  unique = λ i. omega arith;
  fresh = λ i h. refl;
  same = λ p. refl;
  within = omega arith;
  shown = λ e. cc;
}

module _ {q : PlaybackQueue} (v : IsValid q) where
  pub order-Unique : Unique (unwrap_or q.shuffled q.arranged)
  order-Unique i = omega (arith, v.same (has_id i), v.unique i)

  pub order-length : length (unwrap_or q.shuffled q.arranged) ≡ length q.arranged
  order-length = SameItems-length (unwrap_or q.shuffled q.arranged) q.arranged v.same

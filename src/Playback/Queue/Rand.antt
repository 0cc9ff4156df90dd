-- ===== src/Playback/Queue/Rand.antt =====
-- The random number generator of the `rand` crate, as the queue uses it: a parameter. `shuffle` is
-- `SliceRandom::shuffle`, which rearranges its items, and `random_range` draws from `lo..hi`.
use nice_audio_player.Prelude.{ℕ, ◌≤◌, ◌<◌, List, SameItems}
use nice_audio_player.Playback.Queue.State.{QueueEntry}

pub record Rand : Type 1 where
  pub Gen : Type 0
  pub shuffle_items : List QueueEntry → Gen → List QueueEntry × Gen
  pub random_range : ℕ → ℕ → Gen → ℕ × Gen
  pub shuffle_same : (xs : List QueueEntry) (g : Gen) → SameItems (shuffle_items xs g).0 xs
  pub range_bounds :
      (lo hi : ℕ) (g : Gen)
      → lo < hi
      → (lo ≤ (random_range lo hi g).0) × ((random_range lo hi g).0 < hi)

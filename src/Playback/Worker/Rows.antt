-- ===== src/Playback/Worker/Rows.antt =====
-- The rows of a snapshot of the queue (backend/src/audio/playback/snapshot.rs).
use nice_audio_player.Prelude.{
  ◌∷◌, ◌-◌, ◌++◌, ◌&&◌, ℕ, some, none, length, leb, [], Option, List, Bool,
}
use nice_audio_player.Slices.{head, tail_from}
use nice_audio_player.Playback.Queue.State.{
  PlaybackQueue, QueueEntry, current_entry, history, upcoming,
}
use nice_audio_player.Playback.Worker.Types.{PlaybackServiceError}
use nice_audio_player.Playback.Worker.Outside.{Answered, Words, PlayableTrack, good, bad}
use nice_audio_player.Playback.Worker.State.{PlaybackQueueItem}
use nice_audio_player.Playback.Worker.Tracks.{upcoming_in_snapshot, history_in_snapshot}

abbrev pub flatten : {A : Type 0} → List (Option A) → List A
flatten [] = []
flatten (none ∷ xs) = flatten xs
flatten (some x ∷ xs) = x ∷ flatten xs

abbrev pub all_none : {A B : Type 0} → List A → List (Option B)
all_none [] = []
all_none (x ∷ xs) = none ∷ all_none xs

abbrev pub first_row : {A : Type 0} → List (Option A) → Option A
first_row [] = none
first_row (x ∷ xs) = x

abbrev pub as_list : {A : Type 0} → Option A → List A
as_list none = []
as_list (some a) = a ∷ []

-- The last entries played, the current one, and the first that follow.
unfoldable pub shown_history : PlaybackQueue → List QueueEntry
unfolding history
shown_history q = tail_from (history q) (length (history q) - history_in_snapshot)

unfoldable pub shown_rows : PlaybackQueue → List QueueEntry
unfolding shown_history current_entry upcoming
shown_rows q =
    shown_history q ++ (as_list (current_entry q) ++ head (upcoming q) upcoming_in_snapshot)

-- `slice::split_at` panics where the slice is too short.
unfoldable pub splits : List QueueEntry → List QueueEntry → ℕ → Bool
splits before now rows = leb (length before) rows && leb (length now) (rows - length before)

module _ {words : Words} where
  -- `PlaybackQueueItem::of`, for an entry whose track was found.
  unfoldable pub queue_items :
      List QueueEntry
      → List (Option (PlayableTrack words))
      → List (Option (PlaybackQueueItem words))
  queue_items (e ∷ es) (none ∷ tracks) = none ∷ queue_items es tracks
  queue_items (e ∷ es) (some t ∷ tracks) =
      some (record { queue_item_id = e.id; core = t.track.core; album = t.track.album_title })
      ∷ queue_items es tracks
  queue_items _ _ = []

  -- `QueueList::rows`, of what reading the tracks of the entries gave.
  unfoldable pub rows_of :
      List QueueEntry
      → Answered words (List (Option (PlayableTrack words))) PlaybackServiceError
      → List (Option (PlaybackQueueItem words))
  unfolding queue_items
  rows_of shown (bad e) = all_none shown
  rows_of shown (good tracks) = queue_items shown tracks

-- ===== src/Playback/Queue/State.antt =====
-- The queue, its entries and its read-only operations (`PlaybackQueue` of
-- backend/src/audio/playback/queue.rs, `QueueItemId` of backend/src/ids.rs).
use nice_audio_player.Prelude.{
  ℕ, ◌+◌, ◌-◌, ◌^◌, min, Bool, true, false, ◌&&◌, ◌||◌, Option, none, some, List, [], ◌∷◌, ltb,
  ◌==◌, unwrap_or, length, get_elem?,
}
use nice_audio_player.Slices.{get_to, get_from}

pub data PlaybackRepeatMode : Type 0 where
  off all one : PlaybackRepeatMode

-- `==` on repeat modes.
abbrev pub same_mode : PlaybackRepeatMode → PlaybackRepeatMode → Bool
same_mode off off = true
same_mode all all = true
same_mode one one = true
same_mode _ _ = false

pub data AdvanceReason : Type 0 where
  natural user_next user_previous : AdvanceReason

pub data QueueError : Type 0 where
  invalid_start item_not_upcoming : QueueError

-- What a method on `&mut self` that may fail leaves behind: its result and the state, an error
-- and the state as the error finds it, or a panic.
pub data Outcome {ℓ} (S A : Type ℓ) : Type ℓ where
  ok : A → S → Outcome S A
  err : QueueError → S → Outcome S A
  panicked : Outcome S A

-- `u64::MAX`, which is `usize::MAX` on the platforms that the player is built for.
abbrev pub u64_max : ℕ
u64_max = 2 ^ 64 - 1

abbrev pub saturating_add : ℕ → ℕ → ℕ
saturating_add a b = min (a + b) u64_max

-- `QueueItemId::first` and `QueueItemId::next`.
abbrev pub first_id : ℕ
first_id = 1

unfoldable pub next_id : ℕ → ℕ
next_id id = saturating_add id 1

pub record QueueEntry : Type 0 where
  pub id : ℕ
  pub track_id : ℕ

pub record PlaybackQueue : Type 0 where
  pub arranged : List QueueEntry
  pub shuffled : Option (List QueueEntry)
  pub current : ℕ
  pub repeat : PlaybackRepeatMode
  pub shuffle : Bool
  pub next_item_id : ℕ

unfoldable pub new : PlaybackRepeatMode → Bool → PlaybackQueue
new repeat shuffle = record {
  arranged = [];
  shuffled = none;
  current = 0;
  repeat = repeat;
  shuffle = shuffle;
  next_item_id = first_id;
}

abbrev pub is_nil : List QueueEntry → Bool
is_nil [] = true
is_nil (e ∷ es) = false

unfoldable pub is_empty : PlaybackQueue → Bool
is_empty q = is_nil q.arranged

unfoldable pub len : PlaybackQueue → ℕ
len q = length q.arranged

unfoldable pub play_order : PlaybackQueue → List QueueEntry
play_order q = unwrap_or q.shuffled q.arranged

-- `current()` of the source; `current` is the field.
unfoldable pub current_entry : PlaybackQueue → Option QueueEntry
unfolding play_order
current_entry q = get_elem? (play_order q) q.current

unfoldable pub history : PlaybackQueue → List QueueEntry
unfolding play_order
history q = unwrap_or (get_to (play_order q) q.current) []

unfoldable pub upcoming : PlaybackQueue → List QueueEntry
unfolding play_order
upcoming q = unwrap_or (get_from (play_order q) (q.current + 1)) []

unfoldable pub wraps : PlaybackQueue → Bool
unfolding len
wraps q = same_mode q.repeat all && ltb 1 (len q)

unfoldable pub can_go_previous : PlaybackQueue → Bool
unfolding wraps
can_go_previous q = ltb 0 q.current || wraps q

unfoldable pub can_go_next : PlaybackQueue → Bool
unfolding wraps len
can_go_next q = ltb (q.current + 1) (len q) || wraps q

-- `entry.id == id`.
abbrev pub has_id : ℕ → QueueEntry → Bool
has_id id entry = entry.id == id

-- `ids.contains(&entry.id)`, a hash set of ids being the list of its members.
unfoldable pub contains : List ℕ → ℕ → Bool
contains [] id = false
contains (i ∷ ids) id = i == id || contains ids id

abbrev pub id_of : Option QueueEntry → Option ℕ
id_of none = none
id_of (some e) = some e.id

unfoldable pub new_entry : PlaybackQueue → ℕ → QueueEntry × PlaybackQueue
unfolding next_id
new_entry q track_id = (
  record { id = q.next_item_id; track_id = track_id },
  record q { next_item_id = next_id q.next_item_id },
)

-- `track_ids.into_iter().map(|track_id| self.new_entry(track_id)).collect()`.
unfoldable pub new_entries : PlaybackQueue → List ℕ → List QueueEntry × PlaybackQueue
unfolding new_entry
new_entries q [] = ([], q)
new_entries q (t ∷ ts) =
    let (entry, q₁) = new_entry q t in
    let (entries, q₂) = new_entries q₁ ts in (entry ∷ entries, q₂)

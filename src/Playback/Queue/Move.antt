-- ===== src/Playback/Queue/Move.antt =====
-- Moving, jumping and adding (backend/src/audio/playback/queue.rs).
use nice_audio_player.Prelude.{
  ℕ, ◌+◌, ◌-◌, min, Bool, true, false, not, Option, none, some, List, ◌==◌, if◌then◌else◌, is_some,
  length, get_elem?,
}
use nice_audio_player.Vec
use nice_audio_player.Playback.Queue.State.{
  PlaybackRepeatMode, same_mode, invalid_start, item_not_upcoming, Outcome, ok, err, panicked,
  saturating_add, QueueEntry, PlaybackQueue, is_empty, len, play_order, current_entry, has_id,
  id_of, new_entries,
}
use nice_audio_player.Playback.Queue.Edit.{filter_index, upcoming_index, set_play_order}

-- The entry that `move_upcoming` took out and put back at `target`, the id of the entry before it,
-- and the new order.
pub record Moved : Type 0 where
  pub entry : QueueEntry
  pub predecessor : Option ℕ
  pub order : List QueueEntry

unfoldable pub move_in_order : List QueueEntry → ℕ → ℕ → Option Moved
move_in_order order index target = elim (Vec.remove order index) [
  | none ↦ none
  | some (entry, rest) ↦ elim (Vec.insert rest target entry) [
    | none ↦ none
    | some order₁ ↦ some (record {
      entry = entry;
      predecessor = id_of (get_elem? order₁ (target - 1));
      order = order₁;
    })
  ]
]

abbrev pub after_position : Option ℕ → ℕ → ℕ
after_position none end = end
after_position (some position) end = position + 1

-- The arranged order takes the moved entry right after its predecessor.
unfoldable pub rearrange : List QueueEntry → QueueEntry → ℕ → Option (List QueueEntry)
rearrange arranged entry predecessor =
    let others = Vec.retain (λ other. not (other.id == entry.id)) arranged in
    let after = after_position (Vec.position (has_id predecessor) others) (length others) in
    Vec.insert others after entry

-- What follows the edit of the play order in `move_upcoming`.
unfoldable pub settle_move : PlaybackQueue → QueueEntry → Option ℕ → Outcome PlaybackQueue Bool
unfolding rearrange
settle_move q entry none = err item_not_upcoming q
settle_move q entry (some predecessor) =
    if is_some q.shuffled
    then (elim (rearrange q.arranged entry predecessor) [
      | none ↦ panicked
      | some arranged ↦ ok true (record q { arranged = arranged })
    ])
    else ok true q

-- `len() - 1` is only reached when an item is upcoming, so when the queue is not empty.
unfoldable pub move_target : PlaybackQueue → ℕ → ℕ
unfolding len
move_target q to = min (saturating_add (saturating_add q.current 1) to) (len q - 1)

unfoldable pub move_index : PlaybackQueue → ℕ → ℕ → Outcome PlaybackQueue Bool
unfolding play_order move_in_order set_play_order settle_move
move_index q index target =
    if target == index then ok false q else (elim (move_in_order (play_order q) index target) [
      | none ↦ panicked
      | some m ↦ settle_move (set_play_order q m.order) m.entry m.predecessor
    ])

unfoldable pub move_upcoming : PlaybackQueue → ℕ → ℕ → Outcome PlaybackQueue Bool
unfolding upcoming_index move_target move_index
move_upcoming q id to = elim (upcoming_index q id) [
  | none ↦ err item_not_upcoming q
  | some index ↦ move_index q index (move_target q to)
]

unfoldable pub jump_to : PlaybackQueue → ℕ → Outcome PlaybackQueue Unit
unfolding play_order
jump_to q id =
    elim (filter_index (λ index. not (index == q.current))
      (Vec.position (has_id id) (play_order q))) [
        | none ↦ err item_not_upcoming q
        | some index ↦ ok tt (record q { current = index })
      ]

-- `arranged_at` of `enqueue`.
unfoldable pub arranged_at : List QueueEntry → Bool → Option ℕ → ℕ
arranged_at arranged true (some current_id) =
    after_position (Vec.position (has_id current_id) arranged) (length arranged)
arranged_at arranged _ _ = length arranged

-- The two splices of `enqueue`, of the arranged order while shuffled and of the play order.
unfoldable pub add_shuffled :
    PlaybackQueue → List QueueEntry → Bool → Option ℕ → Option (PlaybackQueue)
unfolding arranged_at
add_shuffled q entries next current_id =
    if is_some q.shuffled
    then (elim (Vec.splice q.arranged (arranged_at q.arranged next current_id) entries) [
      | none ↦ none
      | some arranged ↦ some (record q { arranged = arranged })
    ])
    else some q

unfoldable pub add_entries : PlaybackQueue → List QueueEntry → ℕ → Outcome PlaybackQueue Unit
unfolding play_order set_play_order
add_entries q entries at = elim (Vec.splice (play_order q) at entries) [
  | none ↦ panicked
  | some order ↦ ok tt (set_play_order q order)
]

unfoldable pub enqueue : PlaybackQueue → List ℕ → Bool → Outcome PlaybackQueue Unit
unfolding is_empty len current_entry new_entries add_shuffled add_entries
enqueue q track_ids next =
    if is_empty q
    then err invalid_start q
    else let (entries, q₁) = new_entries q track_ids in
      let current_id = id_of (current_entry q₁) in
      let at = if next then q₁.current + 1 else len q₁ in
      (elim (add_shuffled q₁ entries next current_id) [
        | none ↦ panicked
        | some q₂ ↦ add_entries q₂ entries at
      ])

-- `std::mem::replace(&mut self.repeat, repeat) != repeat`.
unfoldable pub set_repeat : PlaybackQueue → PlaybackRepeatMode → Bool × PlaybackQueue
set_repeat q repeat = (not (same_mode q.repeat repeat), record q { repeat = repeat })

-- ===== src/Playback/Queue/Edit.antt =====
-- The edits of the queue that draw no random number (backend/src/audio/playback/queue.rs).
use nice_audio_player.Prelude.{
  ℕ, ◌+◌, ◌-◌, Bool, true, false, not, Option, none, some, List, [], map, ltb, ◌==◌, if◌then◌else◌,
  is_some, length, take,
}
use nice_audio_player.Slices.{head, tail_from}
use nice_audio_player.Vec
use nice_audio_player.Playback.Queue.State.{
  item_not_upcoming, Outcome, ok, err, panicked, QueueEntry, PlaybackQueue, is_nil, play_order,
  upcoming, has_id, contains,
}

unfoldable pub clear : PlaybackQueue → PlaybackQueue
clear q = record q { arranged = []; shuffled = none; current = 0 }

abbrev pub ids_of : List QueueEntry → List ℕ
ids_of = map λ e. e.id

-- The two arms of `clear_upcoming`.
unfoldable pub truncate_orders : ℕ → PlaybackQueue → Option (List QueueEntry) → PlaybackQueue
truncate_orders keep q none = record q { arranged = take keep q.arranged }
truncate_orders keep q (some shuffled) =
    let dropped = ids_of (tail_from shuffled keep) in
    record q {
      shuffled = some (take keep shuffled);
      arranged = Vec.retain (λ entry. not (contains dropped entry.id)) q.arranged;
    }

unfoldable pub clear_upcoming : PlaybackQueue → Bool × PlaybackQueue
unfolding upcoming truncate_orders
clear_upcoming q =
    if is_nil (upcoming q) then (false, q) else (true, truncate_orders (q.current + 1) q q.shuffled)

-- `arranged.retain(…)` and, where there is one, `shuffled.retain(…)`.
abbrev pub retain_shuffled :
    (QueueEntry → Bool) → Option (List QueueEntry) → Option (List QueueEntry)
retain_shuffled keep none = none
retain_shuffled keep (some order) = some (Vec.retain keep order)

unfoldable pub remove_entries : PlaybackQueue → List ℕ → Bool × PlaybackQueue
unfolding play_order
remove_entries q ids =
    let order = play_order q in
    let gone : QueueEntry → Bool = λ entry. contains ids entry.id in
    let kept : QueueEntry → Bool = λ entry. not (contains ids entry.id) in
    let before = length (Vec.retain gone (head order q.current)) in
    if not (Vec.any gone order) then (false, q) else (
      true,
      record q {
        arranged = Vec.retain kept q.arranged;
        shuffled = retain_shuffled kept q.shuffled;
        current = q.current - before;
      },
    )

-- `play_order_mut` with the order that an edit stores back.
unfoldable pub set_play_order : PlaybackQueue → List QueueEntry → PlaybackQueue
set_play_order q order = elim q.shuffled [
  | none ↦ record q { arranged = order }
  | some _ ↦ record q { shuffled = some order }
]

abbrev pub filter_index : (ℕ → Bool) → Option ℕ → Option ℕ
filter_index test none = none
filter_index test (some i) = if test i then some i else none

unfoldable pub upcoming_index : PlaybackQueue → ℕ → Option ℕ
unfolding play_order
upcoming_index q id =
    filter_index (λ index. ltb q.current index) (Vec.position (has_id id) (play_order q))

unfoldable pub remove_at : PlaybackQueue → ℕ → Outcome PlaybackQueue Unit
unfolding play_order set_play_order
remove_at q index = elim (Vec.remove (play_order q) index) [
  | none ↦ panicked
  | some (removed, rest) ↦
      let q₁ = set_play_order q rest in
      ok tt (
        if is_some q₁.shuffled
        then record q₁ { arranged = Vec.retain (λ entry. not (entry.id == removed.id)) q₁.arranged }
        else q₁)
]

unfoldable pub remove_upcoming : PlaybackQueue → ℕ → Outcome PlaybackQueue Unit
unfolding upcoming_index remove_at
remove_upcoming q id = elim (upcoming_index q id) [
  | none ↦ err item_not_upcoming q
  | some index ↦ remove_at q index
]

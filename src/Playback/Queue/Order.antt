-- ===== src/Playback/Queue/Order.antt =====
-- The operations of the queue that shuffle, and those that move the current position
-- (backend/src/audio/playback/queue.rs).
use nice_audio_player.Prelude.{
  ℕ, zero, suc, ◌+◌, ◌-◌, min, max, Bool, true, false, ◌&&◌, not, Option, none, some, List, [], ◌∷◌,
  ◌++◌, ltb, leb, ◌==◌, if◌then◌else◌, unwrap_or, is_some, length, get_elem?, take, drop,
}
use nice_audio_player.Vec
use nice_audio_player.Playback.Queue.State.{
  all, one, same_mode, AdvanceReason, natural, user_next, user_previous, invalid_start, Outcome, ok,
  err, panicked, QueueEntry, PlaybackQueue, is_empty, len, play_order, current_entry, has_id, id_of,
  new_entries,
}
use nice_audio_player.Playback.Queue.Rand.{Rand}

unfoldable pub current_arranged_index : PlaybackQueue → ℕ
current_arranged_index q = min q.current (length q.arranged - 1)

-- `==` on `bool`.
abbrev pub same_bool : Bool → Bool → Bool
same_bool true b = b
same_bool false b = not b

-- `==` on `Option<QueueItemId>`.
abbrev pub same_id : Option ℕ → Option ℕ → Bool
same_id none none = true
same_id (some a) (some b) = a == b
same_id _ _ = false

-- `order.swap(0, other)`, for an index inside the order.
unfoldable pub swap_first : List QueueEntry → ℕ → Option (List QueueEntry)
swap_first [] other = none
swap_first (x ∷ xs) zero = some (x ∷ xs)
swap_first (x ∷ xs) (suc i) = elim (get_elem? xs i) [
  | none ↦ none
  | some y ↦ some (y ∷ (take i xs ++ (x ∷ drop (suc i) xs)))
]

unfoldable pub peek_natural : PlaybackQueue → Option QueueEntry
unfolding is_empty len play_order current_entry
peek_natural q =
    if is_empty q
    then none
    else if same_mode q.repeat one
    then current_entry q
    else if ltb (q.current + 1) (len q)
    then get_elem? (play_order q) (q.current + 1)
    else if same_mode q.repeat all && not (is_some q.shuffled)
    then get_elem? (play_order q) 0
    else none

-- Where turning shuffle off finds the current entry.
unfoldable pub current_after_shuffle : PlaybackQueue → List QueueEntry → ℕ
current_after_shuffle q shuffled = elim (get_elem? shuffled q.current) [
  | none ↦ 0
  | some e ↦ unwrap_or (Vec.position (has_id e.id) q.arranged) 0
]

unfoldable pub drop_shuffled : PlaybackQueue → PlaybackQueue
unfolding current_after_shuffle
drop_shuffled q = elim q.shuffled [
  | none ↦ q
  | some shuffled ↦ record q { shuffled = none; current = current_after_shuffle q shuffled }
]

module _ (r : Rand) where
  open r use {Gen, shuffle_items, random_range}

  abbrev pub Drawn : Type 0 → Type 0
  Drawn A = Outcome (PlaybackQueue × Gen) A

  -- The order that `wrap_to_start` plays next.
  unfoldable pub reshuffle : List QueueEntry → Option ℕ → Gen → Option (List QueueEntry × Gen)
  unfolding swap_first
  reshuffle order last_played g =
      let (order₁, g₁) = shuffle_items order g in
      if same_id (id_of (get_elem? order₁ 0)) last_played
      then (let (other, g₂) = random_range 1 (length order₁) g₁ in
          elim (swap_first order₁ other) [ none ↦ none | some order₂ ↦ some (order₂, g₂) ])
      else some (order₁, g₁)

  unfoldable pub wrap_to_start : PlaybackQueue → Gen → Option (PlaybackQueue × Gen)
  unfolding reshuffle
  wrap_to_start q g = elim q.shuffled [
    | none ↦ some (record q { current = 0 }, g)
    | some shuffled ↦
        if ltb 1 (length shuffled)
        then (elim (reshuffle shuffled (id_of (get_elem? shuffled q.current)) g) [
          | none ↦ none
          | some (order, g₁) ↦ some (record q { shuffled = some order; current = 0 }, g₁)
        ])
        else some (record q { current = 0 }, g)
  ]

  unfoldable pub shuffle_around_current : PlaybackQueue → Gen → Option (PlaybackQueue × Gen)
  unfolding current_arranged_index
  shuffle_around_current q g = elim (Vec.remove q.arranged (current_arranged_index q)) [
    | none ↦ none
    | some (current, rest) ↦
        let (order, g₁) = shuffle_items rest g in
        some (record q { shuffled = some (current ∷ order); current = 0 }, g₁)
  ]

  abbrev pub or_panic : {A : Type 0} → A → Option (PlaybackQueue × Gen) → Drawn A
  or_panic a none = panicked
  or_panic a (some s) = ok a s

  unfoldable pub set_shuffle : PlaybackQueue → Bool → Gen → Drawn Bool
  unfolding is_empty shuffle_around_current drop_shuffled
  set_shuffle q enabled g =
      if same_bool q.shuffle enabled
      then ok false (q, g)
      else let q₁ = record q { shuffle = enabled } in
        if is_empty q₁
        then ok true (q₁, g)
        else if enabled
        then or_panic true (shuffle_around_current q₁ g)
        else ok true (drop_shuffled q₁, g)

  -- `self.current()` at the end of `advance`.
  abbrev pub moved_to : Option (PlaybackQueue × Gen) → Drawn (Option QueueEntry)
  moved_to none = panicked
  moved_to (some s) = ok (current_entry s.0) s

  unfoldable pub advance_forward : PlaybackQueue → Gen → Drawn (Option QueueEntry)
  unfolding len current_entry wrap_to_start
  advance_forward q g =
      if ltb (q.current + 1) (len q)
      then moved_to (some (record q { current = q.current + 1 }, g))
      else if same_mode q.repeat all
      then moved_to (wrap_to_start q g)
      else ok none (q, g)

  unfoldable pub advance_back : PlaybackQueue → Gen → Drawn (Option QueueEntry)
  unfolding len current_entry
  advance_back q g =
      if ltb 0 q.current
      then moved_to (some (record q { current = q.current - 1 }, g))
      else if same_mode q.repeat all
      then moved_to (some (record q { current = len q - 1 }, g))
      else ok none (q, g)

  unfoldable pub advance_by : PlaybackQueue → AdvanceReason → Gen → Drawn (Option QueueEntry)
  unfolding advance_forward advance_back
  advance_by q natural g =
      if same_mode q.repeat one then moved_to (some (q, g)) else advance_forward q g
  advance_by q user_next g = advance_forward q g
  advance_by q user_previous g = advance_back q g

  unfoldable pub advance : PlaybackQueue → AdvanceReason → Gen → Drawn (Option QueueEntry)
  unfolding is_empty advance_by
  advance q reason g = if is_empty q then ok none (q, g) else advance_by q reason g

  unfoldable pub replace : PlaybackQueue → List ℕ → ℕ → Gen → Drawn Unit
  unfolding new_entries shuffle_around_current
  replace q track_ids start_index g =
      if leb (length track_ids) start_index
      then err invalid_start (q, g)
      else let (entries, q₁) = new_entries q track_ids in
        let q₂ = record q₁ { arranged = entries; shuffled = none; current = start_index } in
        if q₂.shuffle then or_panic tt (shuffle_around_current q₂ g) else ok tt (q₂, g)

  abbrev pub without_result : {A : Type 0} → Drawn A → Drawn Unit
  without_result (ok _ s) = ok tt s
  without_result (err e s) = err e s
  without_result panicked = panicked

  unfoldable pub restore : PlaybackQueue → PlaybackQueue → Gen → Drawn Unit
  unfolding set_shuffle
  restore q previous g =
      let q₁ = record previous {
        repeat = q.repeat;
        next_item_id = max q.next_item_id previous.next_item_id;
      } in
      if same_bool q₁.shuffle q.shuffle
      then ok tt (q₁, g)
      else without_result (set_shuffle q₁ q.shuffle g)

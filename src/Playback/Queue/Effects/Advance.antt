-- ===== src/Playback/Queue/Effects/Advance.antt =====
-- Where `advance` goes, and what `peek_natural` sees
-- (backend/src/audio/playback/queue.rs).
use nice_audio_player.Prelude.{
  true, ◌&&◌, not, none, lt→ltb, ltb_of_ge, ltb, is_some, inr, inl, if◌then◌else◌, false, ap,
  Option, Bool-cases, ◌≤◌, ◌≢◌, ◌≡◌, ◌<◌, ◌+◌, ℕ, some, refl, length, get_elem?, arith, List,
}
use nice_audio_player.Playback.Queue.State.{
  PlaybackQueue, QueueEntry, current_entry, natural, user_next, ok, all, one, same_mode, is_empty,
}
use nice_audio_player.Playback.Queue.Ids.{Unique}
use nice_audio_player.Playback.Queue.Rand.{Rand}
use nice_audio_player.Playback.Queue.Order.{
  advance, peek_natural, advance_forward, wrap_to_start, moved_to,
}
use nice_audio_player.Playback.Queue.Invariant.Shuffles.{not_empty_of_length}
use nice_audio_player.Playback.Queue.Effects.Views.{order_of, position-Unique}

-- Entries at different places of an order whose ids are distinct have different ids.
pub ids_apart :
    (xs : List QueueEntry) (i j : ℕ) (x y : QueueEntry)
    → Unique xs
    → get_elem? xs i ≡ some x
    → get_elem? xs j ≡ some y
    → i ≢ j
    → x.id ≢ y.id
ids_apart xs i j x y u a b apart same =
    ground (arith, position-Unique xs i x u a, position-Unique xs j y u b)

module _ (r : Rand) where
  open r use {Gen, shuffle_items, random_range, shuffle_same, range_bounds}

  pub advance_inside :
      (q : PlaybackQueue) (g : Gen)
      → q.current + 1 < length q.arranged
      → advance r q user_next g
        ≡ ok (get_elem? (order_of q) (q.current + 1)) (record q { current = q.current + 1 }, g)
  unfolding advance
  advance_inside q g h =
      rw (not_empty_of_length q (omega arith), lt→ltb (q.current + 1) (length q.arranged) h) refl

  pub advance_wraps :
      (q : PlaybackQueue) (g : Gen)
      → 0 < length q.arranged
      → length q.arranged ≤ q.current + 1
      → same_mode q.repeat all ≡ true
      → advance r q user_next g ≡ moved_to r (wrap_to_start r q g)
  unfolding advance
  advance_wraps q g h last again =
      rw (not_empty_of_length q h, ltb_of_ge (q.current + 1) (length q.arranged) last, again) refl

  pub wrap_to_start-plain :
      (q : PlaybackQueue) (g : Gen)
      → q.shuffled ≡ none
      → wrap_to_start r q g ≡ some (record q { current = 0 }, g)
  unfolding wrap_to_start
  wrap_to_start-plain q g plain = ground arith

  -- What a natural finish moves to when repeat-one is off and the queue is not empty.
  peek_forward :
      (q : PlaybackQueue) (s : Option (List QueueEntry)) (x : QueueEntry) (g : Gen)
      → q.shuffled ≡ s
      → (if ltb (q.current + 1) (length q.arranged)
          then get_elem? (order_of q) (q.current + 1)
          else if same_mode q.repeat all && not (is_some q.shuffled)
          then get_elem? (order_of q) 0
          else none)
        ≡ some x
      → (q' : PlaybackQueue) × (advance_forward r q g ≡ ok (some x) (q', g))
        × (current_entry q' ≡ some x)
  unfolding advance_forward wrap_to_start
  peek_forward q s x g shuffled peeked =
      elim (Bool-cases (ltb (q.current + 1) (length q.arranged))) [
        | inl inside ↦
            let at : get_elem? (order_of q) (q.current + 1) ≡ some x = rw inside at peeked in
            (
              record q { current = q.current + 1 },
              rw inside (ap (λ o. ok o (record q { current = q.current + 1 }, g)) at),
              at,
            )
        | inr last ↦ again last s shuffled
      ]
    where
      again :
          ltb (q.current + 1) (length q.arranged) ≡ false
          → (s : Option (List QueueEntry)) → q.shuffled ≡ s
          → (q' : PlaybackQueue) × (advance_forward r q g ≡ ok (some x) (q', g))
            × (current_entry q' ≡ some x)
      again last none plain = elim (Bool-cases (same_mode q.repeat all)) [
        | inl wrap ↦
            let first : get_elem? q.arranged 0 ≡ some x = rw (last, wrap, plain) at peeked in
            let at : get_elem? (order_of q) 0 ≡ some x = rw plain first in
            (
              record q { current = 0 },
              rw (last, wrap, wrap_to_start-plain q g plain)
                  (ap (λ o. ok o (record q { current = 0 }, g)) at),
              at,
            )
        | inr stop ↦ absurd (ground (arith, rw (last, stop) at peeked))
      ]
      again last (some order) on = absurd (ground arith)

  -- A peeked entry is the one that a natural finish moves to, and drawing nothing.
  pub peek_natural-advance :
      (q : PlaybackQueue) (x : QueueEntry) (g : Gen)
      → peek_natural q ≡ some x
      → (q' : PlaybackQueue) × (advance r q natural g ≡ ok (some x) (q', g))
        × (current_entry q' ≡ some x)
  unfolding peek_natural advance
  peek_natural-advance q x g peeked = elim (Bool-cases (is_empty q)) [
    | inl empty ↦ absurd (ground (arith, rw empty at peeked))
    | inr some_left ↦ elim (Bool-cases (same_mode q.repeat one)) [
      | inl stay ↦ (
        q,
        rw (some_left, stay) (ap (λ o. ok o (q, g)) (rw (some_left, stay) at peeked)),
        rw (some_left, stay) at peeked,
      )
      | inr go ↦
          (let (q', e, at) = peek_forward q q.shuffled x g refl (rw (some_left, go) at peeked) in
            (q', rw (some_left, go) e, at))
    ]
  ]

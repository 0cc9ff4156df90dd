-- ===== src/Playback/Queue/Invariant/Advances.antt =====
-- The invariant under `advance`
-- (backend/src/audio/playback/queue.rs).
use nice_audio_player.Prelude.{
  ◌-◌, ◌+◌, ltb→lt, ltb, ◌≡◌, ◌∙◌, true, sym, some, refl, none, length, inr, inl, arith,
  SameItems-length, SameItems, Option, List, Bool-cases,
}
use nice_audio_player.Playback.Queue.State.{
  user_previous, user_next, natural, all, one, same_mode, AdvanceReason, PlaybackQueue, QueueEntry,
  is_empty,
}
use nice_audio_player.Playback.Queue.Rand.{Rand}
use nice_audio_player.Playback.Queue.Order.{
  advance, moved_to, advance_back, advance_by, advance_forward, wrap_to_start,
}
use nice_audio_player.Playback.Queue.Invariant.{Leaves, IsValid, Yields}
use nice_audio_player.Playback.Queue.Invariant.Shuffles.{
  reordered-IsValid, Good, at-IsValid, not_empty_of_length, reshuffle-SameItems,
}

module _ (r : Rand) where
  open r use {Gen, shuffle_items, random_range, shuffle_same, range_bounds}

  stored_order :
      (q : PlaybackQueue) (order : List QueueEntry)
      → IsValid q
      → SameItems order q.arranged
      → q.shuffle ≡ true
      → (o : Option (List QueueEntry × Gen)) → Yields (λ s. SameItems s.0 order) o
      → Yields (Good r) (elim o [
        | none ↦ none
        | some (next, g) ↦ some (record q { shuffled = some next; current = 0 }, g)
      ])
  stored_order q order v same on none y = y
  stored_order q order v same on (some (next, g)) y =
      reordered-IsValid q next v.unique v.fresh (λ p. y p ∙ same p) on

  -- The state that `wrap_to_start` leaves.
  wrap_to_start-IsValid :
      (q : PlaybackQueue) (s : Option (List QueueEntry)) (g : Gen)
      → q.shuffled ≡ s
      → IsValid q
      → Yields (Good r) (wrap_to_start r q g)
  unfolding wrap_to_start
  wrap_to_start-IsValid q none g e v = rw (e, wrap_to_start) (at-IsValid q 0 v (omega arith))
  wrap_to_start-IsValid q (some order) g e v = elim (Bool-cases (ltb 1 (length order))) [
    | inl long ↦
        rw (e, wrap_to_start, long)
          (stored_order q order v (rw e at v.same)
            (sym (
              rw e at (
                v.shown (
                  not_empty_of_length q (
                    omega (
                      arith,
                      ltb→lt 1 (length order) long,
                      SameItems-length order q.arranged (rw e at v.same),
                    ))))))
            _ (reshuffle-SameItems r order _ g (ltb→lt 1 (length order) long)))
    | inr short ↦ rw (e, wrap_to_start, short) (at-IsValid q 0 v (omega arith))
  ]

  moved_to-Good :
      (o : Option (PlaybackQueue × Gen)) → Yields (Good r) o → Leaves (Good r) (moved_to r o)
  moved_to-Good none y = y
  moved_to-Good (some s) y = y

  advance_forward-IsValid :
      (q : PlaybackQueue) (g : Gen) → IsValid q → Leaves (Good r) (advance_forward r q g)
  unfolding advance_forward
  advance_forward-IsValid q g v = elim (Bool-cases (ltb (q.current + 1) (length q.arranged))) [
    | inl inside ↦ rw inside (
        at-IsValid q (q.current + 1) v
          (omega (arith, ltb→lt (q.current + 1) (length q.arranged) inside)))
    | inr last ↦ elim (Bool-cases (same_mode q.repeat all)) [
      | inl again ↦ rw (last, again) (moved_to-Good _ (wrap_to_start-IsValid q q.shuffled g refl v))
      | inr stop ↦ rw (last, stop) v
    ]
  ]

  advance_back-IsValid :
      (q : PlaybackQueue) (g : Gen) → IsValid q → Leaves (Good r) (advance_back r q g)
  unfolding advance_back
  advance_back-IsValid q g v = elim (Bool-cases (ltb 0 q.current)) [
    | inl inside ↦ rw inside (at-IsValid q (q.current - 1) v (omega (arith, v.within)))
    | inr first ↦ elim (Bool-cases (same_mode q.repeat all)) [
      | inl again ↦ rw (first, again) (at-IsValid q (length q.arranged - 1) v (omega arith))
      | inr stop ↦ rw (first, stop) v
    ]
  ]

  advance_by-IsValid :
      (q : PlaybackQueue) (reason : AdvanceReason) (g : Gen)
      → IsValid q
      → Leaves (Good r) (advance_by r q reason g)
  unfolding advance_by
  advance_by-IsValid q natural g v = elim (Bool-cases (same_mode q.repeat one)) [
    | inl stay ↦ rw stay v
    | inr go ↦ rw go (advance_forward-IsValid q g v)
  ]
  advance_by-IsValid q user_next g v = advance_forward-IsValid q g v
  advance_by-IsValid q user_previous g v = advance_back-IsValid q g v

  pub advance-IsValid :
      (q : PlaybackQueue) (reason : AdvanceReason) (g : Gen)
      → IsValid q
      → Leaves (Good r) (advance r q reason g)
  unfolding advance
  advance-IsValid q reason g v = elim (Bool-cases (is_empty q)) [
    | inl e ↦ rw e v
    | inr n ↦ rw n (advance_by-IsValid q reason g v)
  ]

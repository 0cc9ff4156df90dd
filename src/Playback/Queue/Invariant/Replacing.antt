-- ===== src/Playback/Queue/Invariant/Replacing.antt =====
-- The invariant under `replace` and `restore`
-- (backend/src/audio/playback/queue.rs).
use nice_audio_player.Playback.Queue.Invariant.Additions.{next_after, made}
use native.Mathlib.Decide.{dec_lt}
use nice_audio_player.Prelude.{
  max, if-cases, lt→leb, if◌then◌else◌, ◌≤◌, ◌≡◌, ◌<◌, ℕ, sym, refl, none, length, arith, List,
  Bool,
}
use nice_audio_player.Playback.Queue.State.{
  panicked, invalid_start, ok, err, u64_max, PlaybackQueue, is_empty,
}
use nice_audio_player.Playback.Queue.Rand.{Rand}
use nice_audio_player.Playback.Queue.Ids.{
  length-numbered, numbered_above, new_entries-numbered, numbered-Unique,
}
use nice_audio_player.Playback.Queue.Order.{
  without_result, restore, Drawn, replace, same_bool, or_panic, shuffle_around_current,
}
use nice_audio_player.Playback.Queue.Invariant.{Leaves, IsValid}
use nice_audio_player.Playback.Queue.Invariant.Shuffles.{
  Good, or_panic-Good, set_shuffle-IsValid, shuffle_around_current-IsValid,
}

module _ (r : Rand) where
  open r use {Gen, shuffle_items, random_range, shuffle_same, range_bounds}

  -- The queue that `replace` makes, before it is shuffled.
  abbrev pub replaced : PlaybackQueue → List ℕ → ℕ → PlaybackQueue
  replaced q ts start = record q {
    arranged = made q ts;
    shuffled = none;
    current = start;
    next_item_id = next_after q ts;
  }

  pub replace_outside :
      (q : PlaybackQueue) (ts : List ℕ) (start : ℕ) (g : Gen)
      → length ts ≤ start
      → replace r q ts start g ≡ err invalid_start (q, g)
  unfolding replace
  replace_outside q ts start g h = ground arith

  pub replace_inside :
      (q : PlaybackQueue) (ts : List ℕ) (start : ℕ) (g : Gen)
      → start < length ts
      → next_after q ts ≤ u64_max
      → replace r q ts start g ≡ (
          if q.shuffle
          then or_panic r tt (shuffle_around_current r (replaced q ts start) g)
          else ok tt (replaced q ts start, g))
  unfolding replace
  replace_inside q ts start g h room =
      rw (lt→leb start (length ts) h, new_entries-numbered q ts room) refl

  pub replace-IsValid :
      (q : PlaybackQueue) (ts : List ℕ) (start : ℕ) (g : Gen)
      → IsValid q
      → next_after q ts ≤ u64_max
      → Leaves (Good r) (replace r q ts start g)
  replace-IsValid q ts start g v room = elim (dec_lt start (length ts)) [
    | no outside ↦ rw (replace_outside q ts start g (omega arith)) v
    | yes inside ↦ rw (replace_inside q ts start g inside room) (
        if-cases (Leaves (Good r)) q.shuffle _ _
          (λ on. or_panic-Good r tt _ (
            shuffle_around_current-IsValid r (replaced q ts start) g
              (numbered-Unique q.next_item_id ts) (λ i. numbered_above q.next_item_id i ts)
              (omega (arith, length-numbered q.next_item_id ts)) on))
          (λ off. record {
            unique = numbered-Unique q.next_item_id ts;
            fresh = λ i. numbered_above q.next_item_id i ts;
            same = λ p. refl;
            within = omega (arith, length-numbered q.next_item_id ts);
            shown = λ _. sym off;
          }))
  ]

  -- The queue that `restore` puts back, before its shuffle setting is mended.
  abbrev pub put_back : PlaybackQueue → PlaybackQueue → PlaybackQueue
  put_back q previous = record previous {
    repeat = q.repeat;
    next_item_id = max q.next_item_id previous.next_item_id;
  }

  pub put_back-IsValid :
      (q previous : PlaybackQueue) → IsValid previous → IsValid (put_back q previous)
  unfolding is_empty
  put_back-IsValid q previous v = record {
    unique = v.unique;
    fresh = λ i h. v.fresh i (omega arith);
    same = v.same;
    within = v.within;
    shown = v.shown;
  }

  without_result-Good :
      (o : Drawn r Bool) → Leaves (Good r) o → Leaves (Good r) (without_result r o)
  without_result-Good (ok a s) h = h
  without_result-Good (err e s) h = h
  without_result-Good panicked h = h

  pub restore-IsValid :
      (q previous : PlaybackQueue) (g : Gen)
      → IsValid previous
      → Leaves (Good r) (restore r q previous g)
  unfolding restore
  restore-IsValid q previous g v =
      if-cases (Leaves (Good r)) (same_bool previous.shuffle q.shuffle) _ _
        (λ _. put_back-IsValid q previous v)
        (λ _.
          without_result-Good _ (
            set_shuffle-IsValid r (put_back q previous) q.shuffle g
              (put_back-IsValid q previous v)))

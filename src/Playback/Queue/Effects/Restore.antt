-- ===== src/Playback/Queue/Effects/Restore.antt =====
-- What `restore` and `replace` do to the queue
-- (backend/src/audio/playback/queue.rs).
use nice_audio_player.Prelude.{if◌then◌else◌}
use nice_audio_player.Playback.Queue.Invariant.Additions.{made, next_after}
use nice_audio_player.Playback.Queue.Ids.{numbered-track_ids, length-numbered}
use nice_audio_player.Prelude.{
  ◌⊎◌, ◌≤◌, ◌<◌, sym, map, inr, inl, get_elem?-lt, Bool-cases, ◌∙◌, max, ap, Bool, ◌≡◌, ℕ, true,
  some, refl, none, lt_of_get_elem?, length, get_elem?, false, arith, List,
}
use nice_audio_player.Playback.Queue.State.{
  err, u64_max, current_entry, PlaybackQueue, QueueEntry, ok,
}
use nice_audio_player.Playback.Queue.Rand.{Rand}
use native.Mathlib.Decide.{dec_lt}
use nice_audio_player.Playback.Queue.Invariant.Replacing.{
  replace_inside, replaced, put_back, replace_outside,
}
use nice_audio_player.Playback.Queue.State.{invalid_start}
use nice_audio_player.Playback.Queue.Order.{
  replace, same_bool, restore, without_result, set_shuffle, shuffle_around_current,
}
use nice_audio_player.Playback.Queue.Invariant.{order-length, IsValid}
use nice_audio_player.Playback.Queue.Invariant.Removal.{without_at}
use nice_audio_player.Playback.Queue.Invariant.Shuffles.{not_empty_of_length}
use nice_audio_player.Playback.Queue.Effects.Views.{order_of}
use nice_audio_player.Playback.Queue.Effects.Shuffle.{
  some_of_is_some, entry-arranged, plain_of_off, around, shuffle_around_current-around,
  set_shuffle-on, set_shuffle-off,
}
use nice_audio_player.Playback.Queue.Order.{or_panic}

module _ (r : Rand) where
  open r use {Gen, shuffle_items}

  -- What is put back by `restore`: the queue that was replaced, with the settings that are in
  -- force now.
  pub record PutBack (x : QueueEntry) (q previous q' : PlaybackQueue) : Type 0 where
    pub current : current_entry q' ≡ some x
    pub arranged : q'.arranged ≡ previous.arranged
    pub repeat : q'.repeat ≡ q.repeat
    pub shuffle : q'.shuffle ≡ q.shuffle
    pub next : q'.next_item_id ≡ max q.next_item_id previous.next_item_id

  restore-same :
      (q previous : PlaybackQueue) (g : Gen)
      → same_bool previous.shuffle q.shuffle ≡ true
      → restore r q previous g ≡ ok tt (put_back r q previous, g)
  unfolding restore
  restore-same q previous g e = rw e refl

  restore-other :
      (q previous : PlaybackQueue) (g : Gen)
      → same_bool previous.shuffle q.shuffle ≡ false
      → restore r q previous g
        ≡ without_result r (set_shuffle r (put_back r q previous) q.shuffle g)
  unfolding restore
  restore-other q previous g e = rw e refl

  restore-PutBack_case :
      (q previous : PlaybackQueue) (x : QueueEntry) (g : Gen) (was is : Bool)
      → previous.shuffle ≡ was
      → q.shuffle ≡ is
      → IsValid previous
      → current_entry previous ≡ some x
      → (q' : PlaybackQueue) × (g' : Gen) × (restore r q previous g ≡ ok tt (q', g'))
        × PutBack x q previous q'
  unfolding current_entry
  restore-PutBack_case q previous x g true true a b v at = (
    put_back r q previous,
    g,
    restore-same q previous g (rw (a, b) refl),
    record { current = at; arranged = refl; repeat = refl; shuffle = a ∙ sym b; next = refl },
  )
  restore-PutBack_case q previous x g false false a b v at = (
    put_back r q previous,
    g,
    restore-same q previous g (rw (a, b) refl),
    record { current = at; arranged = refl; repeat = refl; shuffle = a ∙ sym b; next = refl },
  )
  restore-PutBack_case q previous x g true false a b v at =
      let inside : 0 < length previous.arranged =
        omega (arith, lt_of_get_elem? (order_of previous) previous.current x at, order-length v) in
      let (order, s) =
        some_of_is_some previous.shuffled (v.shown (not_empty_of_length previous inside) ∙ a) in
      let (i, place) = entry-arranged previous previous.current x v at in
      (
        record (put_back r q previous) { shuffle = false; shuffled = none; current = i },
        g,
        restore-other q previous g (rw (a, b) refl)
            ∙ rw
                (
                  b,
                  set_shuffle-off r (put_back r q previous) order x i g a s v.unique (rw s at at)
                      place,
                )
                refl,
        record { current = place; arranged = refl; repeat = refl; shuffle = sym b; next = refl },
      )
  restore-PutBack_case q previous x g false true a b v at =
      let plain = plain_of_off previous x v a at in
      let at' : get_elem? previous.arranged previous.current ≡ some x = rw plain at at in
      (
        around r (record (put_back r q previous) { shuffle = true }) previous.current x g,
        (shuffle_items (without_at previous.current previous.arranged) g).1,
        restore-other q previous g (rw (a, b) refl)
            ∙ rw (b, set_shuffle-on r (put_back r q previous) x g a at') refl,
        record { current = refl; arranged = refl; repeat = refl; shuffle = sym b; next = refl },
      )

  -- `restore` puts the queue back that was replaced: its arranged order and its current entry,
  -- under the repeat and shuffle settings that are in force now, and with a counter that reuses
  -- no id of either queue.
  pub restore-PutBack :
      (q previous : PlaybackQueue) (x : QueueEntry) (g : Gen)
      → IsValid previous
      → current_entry previous ≡ some x
      → (q' : PlaybackQueue) × (g' : Gen) × (restore r q previous g ≡ ok tt (q', g'))
        × PutBack x q previous q'
  restore-PutBack q previous x g v at =
      restore-PutBack_case q previous x g previous.shuffle q.shuffle refl refl v at

  -- What `replace` makes of the tracks `ts`, started at `start`.
  pub record Replaced (ts : List ℕ) (start : ℕ) (q q' : PlaybackQueue) : Type 0 where
    pub tracks : map (λ e. e.track_id) q'.arranged ≡ ts
    pub current : current_entry q' ≡ get_elem? q'.arranged start
    pub inside : start < length q'.arranged
    pub repeat : q'.repeat ≡ q.repeat
    pub shuffle : q'.shuffle ≡ q.shuffle

  -- `replace` refuses a start outside the tracks and leaves the queue as it was; else the arranged
  -- order is the tracks in their order, and the one at `start` is current, shuffled or not.
  pub replace-exact :
      (q : PlaybackQueue) (ts : List ℕ) (start : ℕ) (g : Gen)
      → next_after q ts ≤ u64_max
      → ((length ts ≤ start) × (replace r q ts start g ≡ err invalid_start (q, g)))
        ⊎ ((q' : PlaybackQueue) × (g' : Gen) × (replace r q ts start g ≡ ok tt (q', g'))
            × Replaced ts start q q')
  unfolding current_entry
  replace-exact q ts start g room = elim (dec_lt start (length ts)) [
    | no outside ↦ inl (omega arith, replace_outside r q ts start g (omega arith))
    | yes inside ↦ inr (replaced_inside inside (Bool-cases q.shuffle))
  ]
    where
      long : length (made q ts) ≡ length ts
      long = length-numbered q.next_item_id ts

      replaced_inside :
          start < length ts
          → (q.shuffle ≡ true) ⊎ (q.shuffle ≡ false)
          → (q' : PlaybackQueue) × (g' : Gen) × (replace r q ts start g ≡ ok tt (q', g'))
            × Replaced ts start q q'
      replaced_inside h (inl on) =
          let (x, at) = get_elem?-lt (made q ts) start (omega (arith, long)) in
          (
            around r (replaced r q ts start) start x g,
            (shuffle_items (without_at start (made q ts)) g).1,
            replace_inside r q ts start g h room
                ∙ ap
                    (λ b.
                      if b
                      then or_panic r tt (shuffle_around_current r (replaced r q ts start) g)
                      else ok tt (replaced r q ts start, g))
                    on
                ∙ ap (or_panic r tt)
                    (shuffle_around_current-around r (replaced r q ts start) x g at),
            record {
              tracks = numbered-track_ids q.next_item_id ts;
              current = sym at;
              inside = omega (arith, long);
              repeat = refl;
              shuffle = refl;
            },
          )
      replaced_inside h (inr off) = (
        replaced r q ts start,
        g,
        replace_inside r q ts start g h room
            ∙ ap
                (λ b.
                  if b
                  then or_panic r tt (shuffle_around_current r (replaced r q ts start) g)
                  else ok tt (replaced r q ts start, g))
                off,
        record {
          tracks = numbered-track_ids q.next_item_id ts;
          current = refl;
          inside = omega (arith, long);
          repeat = refl;
          shuffle = refl;
        },
      )

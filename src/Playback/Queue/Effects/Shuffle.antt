-- ===== src/Playback/Queue/Effects/Shuffle.antt =====
-- What turning shuffle on and off does
-- (backend/src/audio/playback/queue.rs).
use nice_audio_player.Playback.Queue.Ids.{Unique}
use nice_audio_player.Prelude.{
  ◌<◌, ◌∙◌, ◌==◌, ◌&&◌, is_some, find_of_count, count_if-pos, ap, Option, Bool, ◌≡◌, ◌∷◌, ◌-◌, ℕ,
  true, some, refl, none, min, lt_of_get_elem?, length, get_elem?, false, arith, List,
}
use nice_audio_player.Vec.Counts.{remove-get}
use nice_audio_player.Playback.Queue.State.{current_entry, PlaybackQueue, QueueEntry, ok}
use nice_audio_player.Playback.Queue.Rand.{Rand}
use nice_audio_player.Playback.Queue.Order.{set_shuffle, shuffle_around_current}
use nice_audio_player.Playback.Queue.Invariant.{order-length, IsValid}
use nice_audio_player.Playback.Queue.Invariant.Removal.{without_at}
use nice_audio_player.Playback.Queue.Invariant.Shuffles.{not_empty_of_length}
use nice_audio_player.Playback.Queue.Effects.Views.{order_of, position-Unique}

pub some_of_is_some {ℓ} : {A : Type ℓ} (o : Option A) → is_some o ≡ true → (a : A) × (o ≡ some a)
some_of_is_some none h = cc
some_of_is_some (some a) h = (a, refl)

pub none_of_is_some {ℓ} : {A : Type ℓ} (o : Option A) → is_some o ≡ false → o ≡ none
none_of_is_some none h = refl
none_of_is_some (some a) h = cc

same_entry : QueueEntry → QueueEntry → Bool
same_entry x y = y.id == x.id && y.track_id == x.track_id

same_entry-eq : (x y : QueueEntry) → same_entry x y ≡ true → y ≡ x
unfolding same_entry
same_entry-eq x y h = ground arith

same_entry_self : (x : QueueEntry) → same_entry x x ≡ true
unfolding same_entry
same_entry_self x = ground arith

-- An entry of the play order stands in the arranged order.
pub entry-arranged :
    (q : PlaybackQueue) (j : ℕ) (x : QueueEntry)
    → IsValid q
    → get_elem? (order_of q) j ≡ some x
    → (i : ℕ) × (get_elem? q.arranged i ≡ some x)
entry-arranged q j x v at =
    let (i, y, found, same) = find_of_count (same_entry x) q.arranged (
      omega (
        arith,
        v.same (same_entry x),
        count_if-pos (same_entry x) (order_of q) j x at (same_entry_self x),
      )) in
    (i, found ∙ ap some (same_entry-eq x y same))

pub plain_of_off :
    (q : PlaybackQueue) (x : QueueEntry)
    → IsValid q
    → q.shuffle ≡ false
    → current_entry q ≡ some x
    → q.shuffled ≡ none
unfolding current_entry
plain_of_off q x v off at = none_of_is_some q.shuffled (
    v.shown (
      not_empty_of_length q
        (omega (arith, lt_of_get_elem? (order_of q) q.current x at, order-length v)))
    ∙ off)

module _ (r : Rand) where
  open r use {Gen, shuffle_items}

  -- The queue with the entry `x`, at place `i`, first and the rest shuffled.
  abbrev pub around : PlaybackQueue → ℕ → QueueEntry → Gen → PlaybackQueue
  around q i x g = record q {
    shuffled = some (x ∷ (shuffle_items (without_at i q.arranged) g).0);
    current = 0;
  }

  pub shuffle_around_current-around :
      (q : PlaybackQueue) (x : QueueEntry) (g : Gen)
      → get_elem? q.arranged q.current ≡ some x
      → shuffle_around_current r q g
        ≡ some (around q q.current x g, (shuffle_items (without_at q.current q.arranged) g).1)
  unfolding shuffle_around_current
  shuffle_around_current-around q x g at =
      let index : min q.current (length q.arranged - 1) ≡ q.current =
        omega (arith, lt_of_get_elem? q.arranged q.current x at) in
      rw (shuffle_around_current, index, remove-get q.arranged q.current x at) refl

  pub set_shuffle-on :
      (q : PlaybackQueue) (x : QueueEntry) (g : Gen)
      → q.shuffle ≡ false
      → get_elem? q.arranged q.current ≡ some x
      → set_shuffle r q true g
        ≡ ok true (
          around (record q { shuffle = true }) q.current x g,
          (shuffle_items (without_at q.current q.arranged) g).1,
        )
  unfolding set_shuffle
  set_shuffle-on q x g off at =
      rw
        (
          off,
          not_empty_of_length q (omega (arith, lt_of_get_elem? q.arranged q.current x at)),
          shuffle_around_current-around (record q { shuffle = true }) x g at,
        )
        refl

  pub set_shuffle-off :
      (q : PlaybackQueue) (order : List QueueEntry) (x : QueueEntry) (i : ℕ) (g : Gen)
      → q.shuffle ≡ true
      → q.shuffled ≡ some order
      → Unique q.arranged
      → get_elem? order q.current ≡ some x
      → get_elem? q.arranged i ≡ some x
      → set_shuffle r q false g
        ≡ ok true (record q { shuffle = false; shuffled = none; current = i }, g)
  unfolding set_shuffle
  set_shuffle-off q order x i g on s unique at place = ground (
    arith,
    not_empty_of_length q (omega (arith, lt_of_get_elem? q.arranged i x place)),
    position-Unique q.arranged i x unique place,
  )

  -- Turning shuffle on plays the current entry first and leaves the arranged order alone; turning
  -- it off right after gives back the very queue that was shuffled.
  pub shuffle_round_trip :
      (q : PlaybackQueue) (x : QueueEntry) (g : Gen)
      → IsValid q
      → q.shuffle ≡ false
      → current_entry q ≡ some x
      → (q' : PlaybackQueue) × (g' : Gen) × (set_shuffle r q true g ≡ ok true (q', g'))
        × (current_entry q' ≡ some x)
        × (q'.current ≡ 0)
        × (q'.arranged ≡ q.arranged)
        × ((h : Gen) → set_shuffle r q' false h ≡ ok true (q, h))
  unfolding current_entry
  shuffle_round_trip q x g v off at =
      let plain = plain_of_off q x v off at in
      let at' : get_elem? q.arranged q.current ≡ some x = rw plain at at in
      let q' = around (record q { shuffle = true }) q.current x g in
      (
        q',
        (shuffle_items (without_at q.current q.arranged) g).1,
        set_shuffle-on q x g off at',
        refl,
        refl,
        refl,
        λ h.
            set_shuffle-off q' (x ∷ (shuffle_items (without_at q.current q.arranged) g).0) x
              q.current h refl refl v.unique refl at'
            ∙ ap (λ p. ok true (p, h)) (ground arith),
      )

  -- Turning shuffle off keeps the current entry current, wherever the shuffle had put it, and the
  -- arranged order plays again.
  pub set_shuffle-off_keeps :
      (q : PlaybackQueue) (x : QueueEntry) (g : Gen)
      → IsValid q
      → q.shuffle ≡ true
      → current_entry q ≡ some x
      → (q' : PlaybackQueue) × (set_shuffle r q false g ≡ ok true (q', g))
        × (current_entry q' ≡ some x)
        × (q'.arranged ≡ q.arranged)
        × (q'.shuffled ≡ none)
  unfolding current_entry
  set_shuffle-off_keeps q x g v on at =
      let inside : 0 < length q.arranged =
        omega (arith, lt_of_get_elem? (order_of q) q.current x at, order-length v) in
      let (order, s) = some_of_is_some q.shuffled (v.shown (not_empty_of_length q inside) ∙ on) in
      let (i, place) = entry-arranged q q.current x v at in
      (
        record q { shuffle = false; shuffled = none; current = i },
        set_shuffle-off q order x i g on s v.unique (rw s at at) place,
        place,
        refl,
        refl,
      )

-- ===== src/Playback/Queue/Effects/Steps.antt =====
-- Where `user_next` and `user_previous` go when `can_go_next` and `can_go_previous` hold
-- (backend/src/audio/playback/queue.rs).
use nice_audio_player.Playback.Queue.Invariant.Shuffles.{not_empty_of_length}
use nice_audio_player.Playback.Queue.Effects.Views.{order_of}
use nice_audio_player.Playback.Queue.Invariant.{order-Unique, order-length, IsValid}
use nice_audio_player.Prelude.{
  ◌||◌, ◌-◌, ◌&&◌, lt→ltb, lt_of_get_elem?, ge_of_ltb, false, Bool, ◌+◌, true, none, ltb→lt, ltb,
  ap, Option, ◌∙◌, sym, ==_iff, ◌≤◌, ◌≢◌, ◌≡◌, ◌∷◌, ◌==◌, ◌<◌, ◌++◌, ℕ, zero, take, suc, some, refl,
  length, inr, inl, get_elem?-lt, get_elem?, drop, arith, [], SameItems-length, List, Bool-cases,
}
use nice_audio_player.Playback.Queue.State.{
  same_mode, all, wraps, user_next, user_previous, ok, can_go_next, can_go_previous, PlaybackQueue,
  current_entry, Outcome, QueueEntry, has_id,
}
use nice_audio_player.Playback.Queue.Ids.{Unique}
use nice_audio_player.Playback.Queue.Rand.{Rand}
use nice_audio_player.Playback.Queue.Order.{moved_to, advance, wrap_to_start, reshuffle, swap_first}
use nice_audio_player.Playback.Queue.Effects.Advance.{
  advance_wraps, advance_inside, wrap_to_start-plain, ids_apart,
}

swap_first-first :
    (xs : List QueueEntry) (i : ℕ)
    → 1 ≤ i
    → i < length xs
    → (y : QueueEntry) × (rest : List QueueEntry) × (get_elem? xs i ≡ some y)
      × (swap_first xs i ≡ some (y ∷ rest))
unfolding swap_first
swap_first-first [] i h k = absurd (omega arith)
swap_first-first (x ∷ xs) zero h k = absurd (omega arith)
swap_first-first (x ∷ xs) (suc i) h k =
    let (y, e) = get_elem?-lt xs i (omega arith) in
    (y, take i xs ++ (x ∷ drop (suc i) xs), e, rw (e, swap_first) refl)

and_parts : (a b : Bool) → (a && b) ≡ true → (a ≡ true) × (b ≡ true)
and_parts true b e = (refl, e)
and_parts false b e = cc

wraps_parts :
    (q : PlaybackQueue) → wraps q ≡ true → (same_mode q.repeat all ≡ true) × (1 < length q.arranged)
unfolding wraps
wraps_parts q e =
    let (mode, long) = and_parts (same_mode q.repeat all) (ltb 1 (length q.arranged)) e in
    (mode, ltb→lt 1 (length q.arranged) long)

or_right : (a b : Bool) → a ≡ false → (a || b) ≡ true → b ≡ true
or_right true b f e = cc
or_right false b f e = e

module _ (r : Rand) where
  open r use {Gen, shuffle_items, random_range, shuffle_same, range_bounds}

  -- The first entry of an order is there and does not have the id `last`.
  abbrev pub StartsAfter : ℕ → List QueueEntry → Type 0
  StartsAfter last order = (y : QueueEntry) × (get_elem? order 0 ≡ some y) × (y.id ≢ last)

  reshuffle-StartsAfter :
      (order : List QueueEntry) (x : QueueEntry) (last : ℕ) (g : Gen)
      → Unique order
      → 1 < length order
      → get_elem? (shuffle_items order g).0 0 ≡ some x
      → (order' : List QueueEntry) × (g' : Gen) × (reshuffle r order (some last) g
          ≡ some (order', g'))
        × StartsAfter last order'
  unfolding reshuffle
  reshuffle-StartsAfter order x last g u h first = elim (Bool-cases (x.id == last)) [
    | inl again ↦
        let (y, rest, at, swapped) = swap_first-first order₁ other bounds.0 bounds.1 in
        (
          y ∷ rest,
          (random_range 1 (length order₁) (shuffle_items order g).1).1,
          rw (first, again, swapped) refl,
          (
            y,
            refl,
            λ same.
                ids_apart order₁ 0 other x y unique first at (λ z. omega (arith, z, bounds.0))
                  ((==_iff x.id last).0 again ∙ sym same),
          ),
        )
    | inr fine ↦ (
      order₁,
      (shuffle_items order g).1,
      rw (first, fine) refl,
      (x, first, λ same. ground (arith, ==_iff x.id last, fine, same)),
    )
  ]
    where
      order₁ : List QueueEntry
      order₁ = (shuffle_items order g).0

      unique : Unique order₁
      unique i = omega (arith, shuffle_same order g (has_id i), u i)

      other : ℕ
      other = (random_range 1 (length order₁) (shuffle_items order g).1).0

      bounds : (1 ≤ other) × (other < length order₁)
      bounds =
          range_bounds 1 (length order₁) (shuffle_items order g).1
            (omega (arith, SameItems-length order₁ order (shuffle_same order g)))

  wrap_to_start-shuffled :
      (q : PlaybackQueue) (order : List QueueEntry) (x : QueueEntry) (g : Gen)
      (order' : List QueueEntry) (g' : Gen)
      → q.shuffled ≡ some order
      → get_elem? order q.current ≡ some x
      → 1 < length order
      → reshuffle r order (some x.id) g ≡ some (order', g')
      → wrap_to_start r q g ≡ some (record q { shuffled = some order'; current = 0 }, g')
  unfolding wrap_to_start
  wrap_to_start-shuffled q order x g order' g' on at long e =
      rw (on, wrap_to_start, lt→ltb 1 (length order) long, at, e) refl

  -- What moving away from the entry `x` is: it succeeds with the entry that is then current, which
  -- is not `x`.
  abbrev pub MovesOn : QueueEntry → Outcome (PlaybackQueue × Gen) (Option QueueEntry) → Type 0
  MovesOn x o =
      (y : QueueEntry) × (q' : PlaybackQueue) × (g' : Gen) × (o ≡ ok (some y) (q', g'))
      × (current_entry q' ≡ some y)
      × (y.id ≢ x.id)

  wrap_to_start-MovesOn :
      (q : PlaybackQueue) (s : Option (List QueueEntry)) (x : QueueEntry) (g : Gen)
      → q.shuffled ≡ s
      → IsValid q
      → current_entry q ≡ some x
      → 1 < length q.arranged
      → length q.arranged ≤ q.current + 1
      → MovesOn x (moved_to r (wrap_to_start r q g))
  unfolding current_entry wrap_to_start
  wrap_to_start-MovesOn q none x g plain v at long last =
      let (y, first) = get_elem?-lt (order_of q) 0 (omega (arith, order-length v)) in
      (
        y,
        record q { current = 0 },
        g,
        rw (wrap_to_start-plain r q g plain) (ap (λ o. ok o (record q { current = 0 }, g)) first),
        first,
        ids_apart (order_of q) 0 q.current y x (order-Unique v) first at (omega arith),
      )
  wrap_to_start-MovesOn q (some order) x g on v at long last =
      let at' : get_elem? order q.current ≡ some x = rw on at at in
      let u : Unique order = rw on at (order-Unique v) in
      let long' : 1 < length order =
        omega (arith, SameItems-length order q.arranged (rw on at v.same)) in
      let (z, head) = get_elem?-lt (shuffle_items order g).0 0 (
        omega (
          arith,
          long',
          SameItems-length (shuffle_items order g).0 order (shuffle_same order g),
        )) in
      let (order', g', e, (y, first, apart)) = reshuffle-StartsAfter order z x.id g u long' head in
      (
        y,
        record q { shuffled = some order'; current = 0 },
        g',
        rw (wrap_to_start-shuffled q order x g order' g' on at' long' e)
            (ap (λ o. ok o (record q { shuffled = some order'; current = 0 }, g')) first),
        first,
        apart,
      )

  -- Where `can_go_next` says so, the listener's next moves from the current entry to another one,
  -- which is then current: also where a shuffled queue is shuffled again for another pass, whatever
  -- the generator draws.
  pub user_next-MovesOn :
      (q : PlaybackQueue) (x : QueueEntry) (g : Gen)
      → IsValid q
      → current_entry q ≡ some x
      → can_go_next q ≡ true
      → MovesOn x (advance r q user_next g)
  unfolding current_entry can_go_next
  user_next-MovesOn q x g v at can = elim (Bool-cases (ltb (q.current + 1) (length q.arranged))) [
    | inl inside ↦
        let h = ltb→lt (q.current + 1) (length q.arranged) inside in
        let (y, next) =
          get_elem?-lt (order_of q) (q.current + 1) (omega (arith, order-length v, h)) in
        (
          y,
          record q { current = q.current + 1 },
          g,
          advance_inside r q g h ∙ ap (λ o. ok o (record q { current = q.current + 1 }, g)) next,
          next,
          ids_apart (order_of q) (q.current + 1) q.current y x (order-Unique v) next at
              (omega arith),
        )
    | inr last ↦
        let (mode, long) =
          wraps_parts q (or_right (ltb (q.current + 1) (length q.arranged)) (wraps q) last can) in
        let ends : length q.arranged ≤ q.current + 1 =
          ge_of_ltb (q.current + 1) (length q.arranged) last in
        rw (advance_wraps r q g (omega arith) ends mode)
          (wrap_to_start-MovesOn q q.shuffled x g refl v at long ends)
  ]

  -- Where `can_go_previous` says so, the listener's previous moves from the current entry to
  -- another one, which is then current.
  pub user_previous-MovesOn :
      (q : PlaybackQueue) (x : QueueEntry) (g : Gen)
      → IsValid q
      → current_entry q ≡ some x
      → can_go_previous q ≡ true
      → MovesOn x (advance r q user_previous g)
  unfolding current_entry can_go_previous advance
  user_previous-MovesOn q x g v at can =
      rw
        (not_empty_of_length q
          (omega (arith, lt_of_get_elem? (order_of q) q.current x at, order-length v)))
        (elim (Bool-cases (ltb 0 q.current)) [
          | inl inside ↦
              let (y, before) =
                get_elem?-lt (order_of q) (q.current - 1)
                  (omega (arith, lt_of_get_elem? (order_of q) q.current x at)) in
              (
                y,
                record q { current = q.current - 1 },
                g,
                rw inside (ap (λ o. ok o (record q { current = q.current - 1 }, g)) before),
                before,
                ids_apart (order_of q) (q.current - 1) q.current y x (order-Unique v) before at
                    (omega (arith, ltb→lt 0 q.current inside)),
              )
          | inr start ↦
              let (mode, long) = wraps_parts q (or_right (ltb 0 q.current) (wraps q) start can) in
              let (y, final) =
                get_elem?-lt (order_of q) (length q.arranged - 1) (omega (arith, order-length v)) in
              (
                y,
                record q { current = length q.arranged - 1 },
                g,
                rw (start, mode)
                    (ap (λ o. ok o (record q { current = length q.arranged - 1 }, g)) final),
                final,
                ids_apart (order_of q) (length q.arranged - 1) q.current y x (order-Unique v) final
                    at (omega (arith, ge_of_ltb 0 q.current start)),
              )
        ])

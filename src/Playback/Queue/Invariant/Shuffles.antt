-- ===== src/Playback/Queue/Invariant/Shuffles.antt =====
-- The invariant under `set_shuffle`, and the shuffles that other operations make
-- (backend/src/audio/playback/queue.rs).
use mathlib.Core.Bool.{false≢true}
use nice_audio_player.Prelude.{
  ◌≤◌, ◌≡◌, ◌∷◌, ◌∙◌, ◌<◌, ℕ, zero, true, take, sym, suc, some, refl, none, length, inr, inl,
  get_elem?-lt, get_elem?, false, drop, count_if-append, count_if, arith, [], SameItems-length,
  SameItems, Option-cases, Option, List, Bool-cases, Bool,
}
use nice_audio_player.Vec
use nice_audio_player.Vec.Counts.{position-lt, count_if-removed, count_if-get, remove-get}
use nice_audio_player.Playback.Queue.State.{
  is_nil, PlaybackQueue, QueueEntry, is_empty, has_id, id_of,
}
use nice_audio_player.Playback.Queue.Rand.{Rand}
use nice_audio_player.Playback.Queue.Ids.{Unique}
use nice_audio_player.Playback.Queue.Order.{
  same_bool, or_panic, drop_shuffled, current_after_shuffle, set_shuffle, current_arranged_index,
  same_id, swap_first, reshuffle, shuffle_around_current,
}
use nice_audio_player.Playback.Queue.Invariant.{Leaves, IsValid, Yields}
use nice_audio_player.Playback.Queue.Invariant.Removal.{without_at}

swap_first-SameItems :
    (xs : List QueueEntry) (i : ℕ)
    → i < length xs
    → Yields (λ ys. SameItems ys xs) (swap_first xs i)
unfolding swap_first
swap_first-SameItems [] i h = absurd (omega arith)
swap_first-SameItems (x ∷ xs) zero h = λ p. refl
swap_first-SameItems (x ∷ xs) (suc i) h =
    let (y, e) = get_elem?-lt xs i (omega arith) in
    rw (e, swap_first)
      (λ p.
        ground
          (arith, count_if-get p xs i y e, count_if-append p (take i xs) (x ∷ drop (suc i) xs)))

-- Setting the position keeps a queue valid.
pub at-IsValid :
    (q : PlaybackQueue) (n : ℕ)
    → IsValid q
    → n ≤ length q.arranged
    → IsValid (record q { current = n })
unfolding is_empty
at-IsValid q n v h = record {
  unique = v.unique;
  fresh = v.fresh;
  same = v.same;
  within = h;
  shown = v.shown;
}

-- A shuffled order of the arranged entries makes a valid queue.
pub reordered-IsValid :
    (q : PlaybackQueue) (order : List QueueEntry)
    → Unique q.arranged
    → ((i : ℕ) → q.next_item_id ≤ i → count_if (has_id i) q.arranged ≡ 0)
    → SameItems order q.arranged
    → q.shuffle ≡ true
    → IsValid (record q { shuffled = some order; current = 0 })
reordered-IsValid q order unique fresh same on = record {
  unique = unique;
  fresh = fresh;
  same = same;
  within = omega arith;
  shown = λ _. sym on;
}

pub not_empty_of_length : (q : PlaybackQueue) → 0 < length q.arranged → is_empty q ≡ false
unfolding is_empty
not_empty_of_length q h = not_nil q.arranged h
  where
    not_nil : (xs : List QueueEntry) → 0 < length xs → is_nil xs ≡ false
    not_nil [] h = absurd (omega arith)
    not_nil (x ∷ xs) h = refl

pub length_of_not_empty : (q : PlaybackQueue) → is_empty q ≡ false → 0 < length q.arranged
unfolding is_empty
length_of_not_empty q e = at_least q.arranged e
  where
    at_least : (xs : List QueueEntry) → is_nil xs ≡ false → 0 < length xs
    at_least [] h = cc
    at_least (x ∷ xs) h = omega arith

current_after_shuffle-le :
    (q : PlaybackQueue) (order : List QueueEntry)
    → current_after_shuffle q order ≤ length q.arranged
unfolding current_after_shuffle
current_after_shuffle-le q order = elim (Option-cases (get_elem? order q.current)) [
  | inl e ↦ rw (e, current_after_shuffle) (omega arith)
  | inr (x, e) ↦ elim (Option-cases (Vec.position (has_id x.id) q.arranged)) [
    | inl f ↦ rw (e, current_after_shuffle, f) (omega arith)
    | inr (i, f) ↦
        rw (e, current_after_shuffle, f) (omega (arith, position-lt (has_id x.id) q.arranged i f))
  ]
]

-- `drop_shuffled` does not read whether shuffle is on.
drop_shuffled-shuffle :
    (q : PlaybackQueue) (s : Option (List QueueEntry))
    → q.shuffled ≡ s
    → drop_shuffled (record q { shuffle = false }) ≡ record (drop_shuffled q) { shuffle = false }
unfolding drop_shuffled
drop_shuffled-shuffle q s e = ground arith

module _ (r : Rand) where
  open r use {Gen, shuffle_items, random_range, shuffle_same, range_bounds}

  abbrev pub Good : PlaybackQueue × Gen → Type 0
  Good s = IsValid s.0

  pub reshuffle-SameItems :
      (order : List QueueEntry) (last : Option ℕ) (g : Gen)
      → 1 < length order
      → Yields (λ s. SameItems s.0 order) (reshuffle r order last g)
  unfolding reshuffle
  reshuffle-SameItems order last g h =
      elim (Bool-cases (same_id (id_of (get_elem? (shuffle_items order g).0 0)) last)) [
        | inl again ↦
            rw again (swapped (swap_first order₁ other) (swap_first-SameItems order₁ other bounded))
        | inr fine ↦ rw fine (shuffle_same order g)
      ]
    where
      order₁ : List QueueEntry
      order₁ = (shuffle_items order g).0

      other : ℕ
      other = (random_range 1 (length order₁) (shuffle_items order g).1).0

      bounded : other < length order₁
      bounded =
          (range_bounds 1 (length order₁) (shuffle_items order g).1
            (omega (arith, SameItems-length order₁ order (shuffle_same order g)))).1

      swapped :
          (o : Option (List QueueEntry))
          → Yields (λ ys. SameItems ys order₁) o
          → Yields
              (λ (s : List QueueEntry × Gen). SameItems s.0 order)
              (elim o [
                | none ↦ none
                | some order₂ ↦
                    some (order₂, (random_range 1 (length order₁) (shuffle_items order g).1).1)
              ])
      swapped none y = y
      swapped (some order₂) y = λ p. y p ∙ shuffle_same order g p

  pub shuffle_around_current-IsValid :
      (q : PlaybackQueue) (g : Gen)
      → Unique q.arranged
      → ((i : ℕ) → q.next_item_id ≤ i → count_if (has_id i) q.arranged ≡ 0)
      → 0 < length q.arranged
      → q.shuffle ≡ true
      → Yields Good (shuffle_around_current r q g)
  unfolding shuffle_around_current
  shuffle_around_current-IsValid q g unique fresh h on =
      let i = current_arranged_index q in
      let (x, e) = get_elem?-lt q.arranged i (unfold current_arranged_index in omega arith) in
      rw (remove-get q.arranged i x e, shuffle_around_current)
        (reordered-IsValid q (x ∷ (shuffle_items (without_at i q.arranged) g).0) unique fresh
          (λ p. omega (
            arith,
            count_if-removed p q.arranged i x e,
            shuffle_same (without_at i q.arranged) g p,
          ))
          on)

  pub or_panic-Good :
      {A : Type 0} (a : A) (o : Option (PlaybackQueue × Gen))
      → Yields Good o
      → Leaves Good (or_panic r a o)
  or_panic-Good a none y = y
  or_panic-Good a (some s) y = y

  drop_shuffled-IsValid :
      (q : PlaybackQueue) (s : Option (List QueueEntry))
      → q.shuffled ≡ s
      → IsValid q
      → IsValid (record (drop_shuffled q) { shuffle = false })
  unfolding drop_shuffled is_empty
  drop_shuffled-IsValid q none e v =
      rw (e, drop_shuffled)
        (record {
          unique = v.unique;
          fresh = v.fresh;
          same = rw e (λ p. refl);
          within = v.within;
          shown = λ _. rw e refl;
        })
  drop_shuffled-IsValid q (some order) e v =
      rw (e, drop_shuffled)
        (record {
          unique = v.unique;
          fresh = v.fresh;
          same = λ p. refl;
          within = current_after_shuffle-le q order;
          shown = λ _. refl;
        })

  -- Turning shuffle on or off, in a queue that is not empty.
  set_shuffle-IsValid_case :
      (q : PlaybackQueue) (enabled : Bool) (g : Gen)
      → IsValid q
      → is_empty q ≡ false
      → same_bool q.shuffle enabled ≡ false
      → Leaves Good (set_shuffle r q enabled g)
  unfolding set_shuffle
  set_shuffle-IsValid_case q true g v n e =
      rw (e, n)
        (or_panic-Good true _ (
          shuffle_around_current-IsValid (record q { shuffle = true }) g v.unique v.fresh
            (length_of_not_empty q n) refl))
  set_shuffle-IsValid_case q false g v n e =
      rw (e, n, drop_shuffled-shuffle q q.shuffled refl) (drop_shuffled-IsValid q q.shuffled refl v)

  pub set_shuffle-IsValid :
      (q : PlaybackQueue) (enabled : Bool) (g : Gen)
      → IsValid q
      → Leaves Good (set_shuffle r q enabled g)
  unfolding set_shuffle
  set_shuffle-IsValid q enabled g v = elim (Bool-cases (same_bool q.shuffle enabled)) [
    | inl e ↦ rw e v
    | inr e ↦ elim (Bool-cases (is_empty q)) [
      | inl n ↦
          rw (e, n)
            (record {
              unique = v.unique;
              fresh = v.fresh;
              same = v.same;
              within = v.within;
              shown = λ m. absurd (false≢true (sym m ∙ n));
            })
      | inr n ↦ set_shuffle-IsValid_case q enabled g v n e
    ]
  ]

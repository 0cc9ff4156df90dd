-- ===== src/Playback/Queue/Invariant/Additions.antt =====
-- The invariant under `enqueue` and `set_repeat`
-- (backend/src/audio/playback/queue.rs).
use nice_audio_player.Prelude.{
  ◌≤◌, ◌≡◌, ◌∙◌, ◌<◌, ◌+◌, ◌++◌, ℕ, unwrap_or, true, take, sym, some, refl, none, ltb→lt, ltb,
  length, is_some, inr, inl, if◌then◌else◌, get_elem?, ge_of_ltb, false, drop, count_if-all,
  count_if, arith, ap, SameItems-length, SameItems, Option, List, Bool-cases, Bool,
}
use nice_audio_player.Vec
use nice_audio_player.Vec.Counts.{count_if-splice}
use nice_audio_player.Playback.Queue.State.{
  is_empty, is_empty, is_empty, is_empty, is_empty, is_empty, is_empty, is_empty, is_empty,
  is_empty, is_empty, is_empty, PlaybackRepeatMode, PlaybackQueue, QueueEntry, ok, err,
  invalid_start, is_empty, has_id, id_of, u64_max, current_entry,
}
use nice_audio_player.Playback.Queue.Ids.{
  Unique, numbered, new_entries-numbered, numbered_below, numbered_above, numbered-Unique,
}
use nice_audio_player.Playback.Queue.Move.{arranged_at, enqueue, set_repeat}
use nice_audio_player.Playback.Queue.Invariant.{IsValid, Leaves}
use nice_audio_player.Playback.Queue.Invariant.Moves.{after_position-le}

-- The entries put in at a place.
abbrev pub spliced : ℕ → List QueueEntry → List QueueEntry → List QueueEntry
spliced n es xs = take n xs ++ (es ++ drop n xs)

pub splice-spliced :
    (n : ℕ) (es xs : List QueueEntry) → n ≤ length xs → Vec.splice xs n es ≡ some (spliced n es xs)
unfolding Vec.splice
splice-spliced n es xs h = ground arith

pub count_if-spliced :
    (p : QueueEntry → Bool) (n : ℕ) (es xs : List QueueEntry)
    → n ≤ length xs
    → count_if p (spliced n es xs) ≡ count_if p es + count_if p xs
count_if-spliced p n es xs h =
    count_if-splice p xs n es (spliced n es xs) (splice-spliced n es xs h)

pub arranged_at-le :
    (arranged : List QueueEntry) (next : Bool) (current_id : Option ℕ)
    → arranged_at arranged next current_id ≤ length arranged
unfolding arranged_at
arranged_at-le arranged true (some i) = after_position-le arranged i
arranged_at-le arranged true none = omega arith
arranged_at-le arranged false i = omega arith

-- Where `enqueue` puts the entries in the play order.
abbrev pub add_place : PlaybackQueue → Bool → ℕ
add_place q next = if next then q.current + 1 else length q.arranged

abbrev pub made : PlaybackQueue → List ℕ → List QueueEntry
made q ts = numbered q.next_item_id ts

abbrev pub next_after : PlaybackQueue → List ℕ → ℕ
next_after q ts = q.next_item_id + length ts

pub enqueue_empty :
    (q : PlaybackQueue) (ts : List ℕ) (next : Bool)
    → is_empty q ≡ true
    → enqueue q ts next ≡ err invalid_start q
unfolding enqueue
enqueue_empty q ts next e = ground arith

pub enqueue-plain :
    (q : PlaybackQueue) (ts : List ℕ) (next : Bool)
    → q.shuffled ≡ none
    → is_empty q ≡ false
    → next_after q ts ≤ u64_max
    → add_place q next ≤ length q.arranged
    → enqueue q ts next
      ≡ ok tt (record q {
        arranged = spliced (add_place q next) (made q ts) q.arranged;
        next_item_id = next_after q ts;
      })
unfolding enqueue
enqueue-plain q ts next e some_items room h = ground (
  arith,
  new_entries-numbered q ts room,
  splice-spliced (add_place q next) (made q ts) q.arranged h,
)

pub enqueue-shuffled :
    (q : PlaybackQueue) (order : List QueueEntry) (ts : List ℕ) (next : Bool)
    → q.shuffled ≡ some order
    → is_empty q ≡ false
    → next_after q ts ≤ u64_max
    → add_place q next ≤ length order
    → enqueue q ts next
      ≡ ok tt (record q {
        arranged =
            spliced (arranged_at q.arranged next (id_of (current_entry q))) (made q ts) q.arranged;
        shuffled = some (spliced (add_place q next) (made q ts) order);
        next_item_id = next_after q ts;
      })
unfolding enqueue
enqueue-shuffled q order ts next e some_items room h = ground (
  arith,
  new_entries-numbered q ts room,
  splice-spliced (arranged_at q.arranged next (id_of (get_elem? order q.current))) (made q ts)
      q.arranged (arranged_at-le q.arranged next (id_of (get_elem? order q.current))),
  splice-spliced (add_place q next) (made q ts) order h,
)

-- New entries, put in at one place of both orders, keep a queue valid.
module _ (q q' : PlaybackQueue) (ts : List ℕ) (v : IsValid q)
    (count : (p : QueueEntry → Bool)
      → count_if p q'.arranged ≡ count_if p (made q ts) + count_if p q.arranged)
    (same : SameItems (unwrap_or q'.shuffled q'.arranged) q'.arranged)
    (next : q'.next_item_id ≡ next_after q ts) (current : q'.current ≡ q.current)
    (shown : is_empty q' ≡ false → is_some q'.shuffled ≡ q'.shuffle) where
  grown-IsValid : IsValid q'
  grown-IsValid = record {
    unique = unique;
    fresh = λ i h. omega (
      arith,
      count (has_id i),
      numbered_above q.next_item_id i ts (omega arith),
      v.fresh i (omega arith),
    );
    same = same;
    within =
        omega
          (arith, v.within, count (λ _. true), count_if-all q'.arranged, count_if-all q.arranged);
    shown = shown;
  }
    where
      unique : Unique q'.arranged
      unique i = elim (Bool-cases (ltb i q.next_item_id)) [
        | inl old ↦ omega (
          arith,
          count (has_id i),
          numbered_below q.next_item_id i ts (ltb→lt i q.next_item_id old),
          v.unique i,
        )
        | inr new ↦ omega (
          arith,
          count (has_id i),
          numbered-Unique q.next_item_id ts i,
          v.fresh i (ge_of_ltb i q.next_item_id new),
        )
      ]

enqueue-IsValid_case :
    (q : PlaybackQueue) (s : Option (List QueueEntry)) (ts : List ℕ) (next : Bool)
    → q.shuffled ≡ s
    → IsValid q
    → is_empty q ≡ false
    → next_after q ts ≤ u64_max
    → add_place q next ≤ length q.arranged
    → Leaves IsValid (enqueue q ts next)
enqueue-IsValid_case q none ts next e v n room h = rw (enqueue-plain q ts next e n room h) (
    grown-IsValid q _ ts v (λ p. count_if-spliced p (add_place q next) (made q ts) q.arranged h)
      (rw e (λ p. refl)) refl refl (λ _. v.shown n))
enqueue-IsValid_case q (some order) ts next e v n room h =
    rw (enqueue-shuffled q order ts next e n room (omega (arith, lengths))) (
      grown-IsValid q _ ts v count
        (λ p.
          count_if-spliced p (add_place q next) (made q ts) order (omega (arith, lengths))
          ∙ ap (◌+◌ (count_if p (made q ts))) (same p)
          ∙ sym (count p))
        refl refl (λ _. rw e at (v.shown n)))
  where
    same : SameItems order q.arranged
    same = rw e at v.same

    lengths : length order ≡ length q.arranged
    lengths = SameItems-length order q.arranged same

    place : ℕ
    place = arranged_at q.arranged next (id_of (current_entry q))

    count :
        (p : QueueEntry → Bool)
        → count_if p (spliced place (made q ts) q.arranged)
          ≡ count_if p (made q ts) + count_if p q.arranged
    count p =
        count_if-spliced p place (made q ts) q.arranged
          (arranged_at-le q.arranged next (id_of (current_entry q)))

pub enqueue-IsValid :
    (q : PlaybackQueue) (ts : List ℕ) (next : Bool)
    → IsValid q
    → next_after q ts ≤ u64_max
    → (next ≡ true → q.current < length q.arranged)
    → Leaves IsValid (enqueue q ts next)
enqueue-IsValid q ts next v room has_current = elim (Bool-cases (is_empty q)) [
  | inl e ↦ rw (enqueue_empty q ts next e) v
  | inr n ↦ enqueue-IsValid_case q q.shuffled ts next refl v n room (place-le next has_current)
]
  where
    place-le :
        (b : Bool) → (b ≡ true → q.current < length q.arranged) → add_place q b ≤ length q.arranged
    place-le true h = omega (arith, h refl)
    place-le false h = omega arith

pub set_repeat-IsValid :
    (q : PlaybackQueue) (repeat : PlaybackRepeatMode) → IsValid q → IsValid (set_repeat q repeat).1
unfolding set_repeat is_empty
set_repeat-IsValid q repeat v = record {
  unique = v.unique;
  fresh = v.fresh;
  same = v.same;
  within = v.within;
  shown = v.shown;
}

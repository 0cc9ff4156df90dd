-- ===== src/Playback/Queue/Effects/Additions.antt =====
-- What `enqueue` does
-- (backend/src/audio/playback/queue.rs).
use nice_audio_player.Prelude.{
  ◌≤◌, ◌≡◌, ◌∙◌, ◌<◌, ◌+◌, ◌++◌, ℕ, true, take-past, take, sym, some, refl, none, length-take,
  length, if◌then◌else◌, get_elem?-lt, false, drop_of_length-le, drop, arith, ap, SameItems-length,
  Option, List, Bool,
}
use mathlib.Core.List.{append-nil}
use nice_audio_player.Vec.Parts.{take-append, drop-append, take-take, drop-take_self}
use nice_audio_player.Playback.Queue.State.{
  PlaybackQueue, QueueEntry, ok, current_entry, upcoming, id_of, u64_max,
}
use nice_audio_player.Playback.Queue.Move.{enqueue, arranged_at}
use nice_audio_player.Playback.Queue.Invariant.{IsValid}
use nice_audio_player.Playback.Queue.Invariant.Additions.{
  spliced, add_place, made, next_after, enqueue-plain, enqueue-shuffled,
}
use nice_audio_player.Playback.Queue.Effects.Views.{
  order_of, SameStart, SameStart-of_take, upcoming-eq-drop, position-Unique,
}
use nice_audio_player.Playback.Queue.Invariant.Shuffles.{not_empty_of_length}

-- Entries put in after the first `n` of an order leave those `n` in place.
take-spliced :
    (n at : ℕ) (es xs : List QueueEntry)
    → n ≤ at
    → at ≤ length xs
    → take n (spliced at es xs) ≡ take n xs
take-spliced n at es xs h k =
    take-append n (take at xs) (es ++ drop at xs) (omega (arith, length-take at xs))
    ∙ take-take n at xs h

drop-spliced_here :
    (n : ℕ) (es xs : List QueueEntry) → n ≤ length xs → drop n (spliced n es xs) ≡ es ++ drop n xs
drop-spliced_here n es xs h =
    drop-append n (take n xs) (es ++ drop n xs) (omega (arith, length-take n xs))
    ∙ ap (λ ys. ys ++ (es ++ drop n xs)) (drop-take_self n xs)

drop-spliced_end :
    (n : ℕ) (es xs : List QueueEntry)
    → n ≤ length xs
    → drop n (spliced (length xs) es xs) ≡ drop n xs ++ es
drop-spliced_end n es xs h =
    rw
      (
        take-past xs (length xs) (omega arith),
        drop_of_length-le (length xs) xs (omega arith),
        append-nil es,
      )
      (drop-append n xs es h)

-- The upcoming entries after `es` have been added next or last.
abbrev pub added : Bool → List QueueEntry → List QueueEntry → List QueueEntry
added true es xs = es ++ xs
added false es xs = xs ++ es

-- What `enqueue` leaves: the new entries next or last in the play order, and in the arranged order
-- right after the current entry or last.
pub record Added (ts : List ℕ) (next : Bool) (q q' : PlaybackQueue) : Type 0 where
  pub start : SameStart q q'
  pub after : upcoming q' ≡ added next (made q ts) (upcoming q)
  pub arranged :
      q'.arranged
      ≡ spliced (arranged_at q.arranged next (id_of (current_entry q))) (made q ts) q.arranged

module _ (q q' : PlaybackQueue) (ts : List ℕ) (next : Bool)
    (has_current : q.current < length (order_of q)) (place : ℕ)
    (here : place ≡ (if next then q.current + 1 else length (order_of q)))
    (c : q'.current ≡ q.current) (o : order_of q' ≡ spliced place (made q ts) (order_of q)) where
  place_inside : (q.current + 1 ≤ place) × (place ≤ length (order_of q))
  place_inside = ground arith

  added-start : SameStart q q'
  added-start =
      SameStart-of_take q q' (omega arith) c
        (rw (c, o)
          (omega (
            arith,
            place_inside,
            ap length prefix,
            length-take (q.current + 1) (order_of q),
            length-take (q.current + 1) (spliced place (made q ts) (order_of q)),
          )))
        (rw o prefix)
    where
      prefix :
          take (q.current + 1) (spliced place (made q ts) (order_of q))
          ≡ take (q.current + 1) (order_of q)
      prefix =
          take-spliced (q.current + 1) place (made q ts) (order_of q) place_inside.0 place_inside.1

added-after :
    (q q' : PlaybackQueue) (ts : List ℕ) (next : Bool)
    → q.current < length (order_of q)
    → q'.current ≡ q.current
    → order_of q'
      ≡ spliced (if next then q.current + 1 else length (order_of q)) (made q ts) (order_of q)
    → upcoming q' ≡ added next (made q ts) (upcoming q)
added-after q q' ts true h c o =
    upcoming-eq-drop q'
    ∙ rw (c, o) (drop-spliced_here (q.current + 1) (made q ts) (order_of q) (omega arith))
    ∙ ap (◌++◌ (made q ts)) (sym (upcoming-eq-drop q))
added-after q q' ts false h c o =
    upcoming-eq-drop q'
    ∙ rw (c, o) (drop-spliced_end (q.current + 1) (made q ts) (order_of q) (omega arith))
    ∙ ap (λ xs. xs ++ made q ts) (sym (upcoming-eq-drop q))

-- In a queue that is not shuffled the current entry's id leads to the position itself.
plain_place :
    (q : PlaybackQueue) (next : Bool)
    → IsValid q
    → q.shuffled ≡ none
    → q.current < length q.arranged
    → arranged_at q.arranged next (id_of (current_entry q)) ≡ add_place q next
unfolding arranged_at current_entry
plain_place q false v e h = refl
plain_place q true v e h =
    let (x, at) = get_elem?-lt q.arranged q.current h in
    ground (arith, at, position-Unique q.arranged q.current x v.unique at)

enqueue-Added_case :
    (q : PlaybackQueue) (s : Option (List QueueEntry)) (ts : List ℕ) (next : Bool)
    → q.shuffled ≡ s
    → IsValid q
    → next_after q ts ≤ u64_max
    → q.current < length q.arranged
    → add_place q next ≤ length q.arranged
    → (q' : PlaybackQueue) × (enqueue q ts next ≡ ok tt q') × Added ts next q q'
enqueue-Added_case q none ts next e v room h k = (
  q',
  enqueue-plain q ts next e (not_empty_of_length q (omega arith)) room k,
  record {
    start = added-start q q' ts next (rw e h) (add_place q next) (rw e refl) refl (rw e refl);
    after = added-after q q' ts next (rw e h) refl (rw e refl);
    arranged = rw (plain_place q next v e h) refl;
  },
)
  where
    q' : PlaybackQueue
    q' = record q {
      arranged = spliced (add_place q next) (made q ts) q.arranged;
      next_item_id = next_after q ts;
    }
enqueue-Added_case q (some order) ts next e v room h k = (
  q',
  enqueue-shuffled q order ts next e (not_empty_of_length q (omega arith)) room
      (omega (arith, lengths)),
  record {
    start =
        added-start q q' ts next (rw e (omega (arith, lengths))) (add_place q next)
          (rw e (rw lengths refl)) refl (rw e refl);
    after = added-after q q' ts next (rw e (omega (arith, lengths))) refl (rw e (rw lengths refl));
    arranged = refl;
  },
)
  where
    lengths : length order ≡ length q.arranged
    lengths = SameItems-length order q.arranged (rw e at v.same)

    q' : PlaybackQueue
    q' = record q {
      arranged =
          spliced (arranged_at q.arranged next (id_of (current_entry q))) (made q ts) q.arranged;
      shuffled = some (spliced (add_place q next) (made q ts) order);
      next_item_id = next_after q ts;
    }

-- `enqueue` into a queue with a current entry puts the new entries right after it or last, in the
-- play order and in the arranged order alike, and leaves what was played and the current entry.
pub enqueue-Added :
    (q : PlaybackQueue) (ts : List ℕ) (next : Bool)
    → IsValid q
    → next_after q ts ≤ u64_max
    → q.current < length q.arranged
    → (q' : PlaybackQueue) × (enqueue q ts next ≡ ok tt q') × Added ts next q q'
enqueue-Added q ts next v room h =
    enqueue-Added_case q q.shuffled ts next refl v room h (place-le next)
  where
    place-le : (b : Bool) → add_place q b ≤ length q.arranged
    place-le true = omega arith
    place-le false = omega arith

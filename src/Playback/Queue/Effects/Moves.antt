-- ===== src/Playback/Queue/Effects/Moves.antt =====
-- What `move_upcoming` and `jump_to` do.
use nice_audio_player.Playback.Queue.Edit.{upcoming_index}
use nice_audio_player.Prelude.{
  ==_iff, unwrap_or, true, not, none, ne_test, lt_of_get_elem?, Option, ◌≤◌, ◌≢◌, ◌≡◌, ◌∷◌, ◌∙◌,
  ◌==◌, ◌<◌, ◌-◌, ◌+◌, ℕ, zero_add, zero, take, sym, suc_add, suc, some, refl, min, length-drop,
  length, if◌then◌else◌, get_elem?, drop, arith, ap, [], SameItems, List,
}
use nice_audio_player.Vec
use nice_audio_player.Playback.Queue.State.{
  PlaybackQueue, QueueEntry, ok, err, item_not_upcoming, upcoming, u64_max,
}
use nice_audio_player.Playback.Queue.Move.{move_target, move_index, move_upcoming, jump_to}
use nice_audio_player.Playback.Queue.Invariant.{IsValid, order-length, order-Unique}
use nice_audio_player.Playback.Queue.Invariant.Removal.{other_id}
use native.Mathlib.Decide.{ℕ_discrete}
use nice_audio_player.Playback.Queue.Invariant.Moves.{
  arranged_place, arranged_place-le, rearranged-SameItems, count_if-moved_order, insert_at,
  moved_order, move_index-same, move_index-plain, move_index-shuffled, length-moved_order,
}
use nice_audio_player.Playback.Queue.Effects.Views.{
  order_of, SameStart, SameStart-of_take, upcoming-eq-drop, upcoming_at, position-Unique,
}

-- A move between places from `n` on leaves what is before `n`, and moves what follows.
take-moved_order :
    (n index target : ℕ) (x : QueueEntry) (xs : List QueueEntry)
    → n ≤ index
    → n ≤ target
    → index < length xs
    → take n (moved_order index target x xs) ≡ take n xs
unfolding moved_order insert_at
take-moved_order zero index target x xs h k l = refl
take-moved_order (suc n) zero target x xs h k l = absurd (omega arith)
take-moved_order (suc n) (suc index) zero x xs h k l = absurd (omega arith)
take-moved_order (suc n) (suc index) (suc target) x [] h k l = absurd (omega arith)
take-moved_order (suc n) (suc index) (suc target) x (y ∷ ys) h k l =
    ap (◌∷◌ y) (take-moved_order n index target x ys (omega arith) (omega arith) (omega arith))

drop-moved_order :
    (n i t : ℕ) (x : QueueEntry) (xs : List QueueEntry)
    → n + i < length xs
    → drop n (moved_order (n + i) (n + t) x xs) ≡ moved_order i t x (drop n xs)
unfolding moved_order insert_at
drop-moved_order zero i t x xs l = rw (zero_add i, zero_add t) refl
drop-moved_order (suc n) i t x [] l = absurd (omega arith)
drop-moved_order (suc n) i t x (y ∷ ys) l =
    rw (suc_add n i, suc_add n t) (drop-moved_order n i t x ys (omega arith))

-- What `move_upcoming` leaves when the `i`-th upcoming entry goes to place `t`.
pub record MovedTo (i t : ℕ) (x : QueueEntry) (q q' : PlaybackQueue) : Type 0 where
  pub start : SameStart q q'
  pub after : upcoming q' ≡ moved_order i t x (upcoming q)
  pub arranged : SameItems q'.arranged q.arranged

moved-MovedTo :
    (q q' : PlaybackQueue) (i t : ℕ) (x : QueueEntry)
    → IsValid q
    → get_elem? (order_of q) (q.current + 1 + i) ≡ some x
    → q.current + 1 + i < length (order_of q)
    → q.current + 1 + t < length (order_of q)
    → q'.current ≡ q.current
    → order_of q' ≡ moved_order (q.current + 1 + i) (q.current + 1 + t) x (order_of q)
    → SameItems q'.arranged q.arranged
    → MovedTo i t x q q'
moved-MovedTo q q' i t x v at inside k c o a = record {
  start =
      SameStart-of_take q q' (omega arith) c
        (rw (c, o)
          (omega (
            arith,
            length-moved_order (q.current + 1 + i) (q.current + 1 + t) x (order_of q) at k inside,
          )))
        (rw o (
          take-moved_order (q.current + 1) (q.current + 1 + i) (q.current + 1 + t) x (order_of q)
            (omega arith) (omega arith) inside));
  after =
      upcoming-eq-drop q'
      ∙ rw (c, o) (drop-moved_order (q.current + 1) i t x (order_of q) inside)
      ∙ ap (moved_order i t x) (sym (upcoming-eq-drop q));
  arranged = a;
}

-- The place that `to` names among the upcoming entries, the last one if it is past the end.
pub place_of : PlaybackQueue → ℕ → ℕ
place_of q to = min to (length (upcoming q) - 1)

length-upcoming : (q : PlaybackQueue) → length (upcoming q) ≡ length (order_of q) - (q.current + 1)
length-upcoming q = ap length (upcoming-eq-drop q) ∙ length-drop (q.current + 1) (order_of q)

place_of-lt :
    (q : PlaybackQueue) (to : ℕ) → 0 < length (upcoming q) → place_of q to < length (upcoming q)
unfolding place_of
place_of-lt q to h = omega arith

-- `to` and the position do not saturate when they are added, as no index of a real queue does.
pub move_target-place_of :
    (q : PlaybackQueue) (to : ℕ)
    → IsValid q
    → q.current + 1 < length q.arranged
    → length q.arranged ≤ u64_max
    → move_target q to ≡ q.current + 1 + place_of q to
unfolding move_target place_of
move_target-place_of q to v h fits = omega (arith, length-upcoming q, order-length v)

moved_order_self :
    (i : ℕ) (x : QueueEntry) (xs : List QueueEntry)
    → get_elem? xs i ≡ some x
    → moved_order i i x xs ≡ xs
unfolding moved_order insert_at
moved_order_self i x [] e = cc
moved_order_self zero x (y ∷ ys) e = ground arith
moved_order_self (suc i) x (y ∷ ys) e = ap (◌∷◌ y) (moved_order_self i x ys e)

-- The queue that a move to another place makes.
move_elsewhere :
    (q : PlaybackQueue) (s : Option (List QueueEntry)) (i t : ℕ) (x : QueueEntry)
    → q.shuffled ≡ s
    → IsValid q
    → t ≢ i
    → get_elem? (unwrap_or s q.arranged) (q.current + 1 + i) ≡ some x
    → q.current + 1 + i < length (unwrap_or s q.arranged)
    → q.current + 1 + t < length (unwrap_or s q.arranged)
    → (q' : PlaybackQueue) × (move_index q (q.current + 1 + i) (q.current + 1 + t) ≡ ok true q')
      × MovedTo i t x q q'
move_elsewhere q none i t x e v ne at inside k = (
  record q { arranged = moved_order (q.current + 1 + i) (q.current + 1 + t) x q.arranged },
  move_index-plain q (q.current + 1 + i) (q.current + 1 + t) x e (λ p. ne (omega arith)) at k
      inside,
  moved-MovedTo q _ i t x v (rw e at) (rw e inside) (rw e k) refl (rw e refl) (λ p.
      count_if-moved_order p (q.current + 1 + i) (q.current + 1 + t) x q.arranged at k inside),
)
move_elsewhere q (some order) i t x e v ne at inside k =
    let index = q.current + 1 + i in
    let target = q.current + 1 + t in
    let (y, _, moved) =
      move_index-shuffled q order index target x e (λ p. ne (omega arith)) at k inside in
    (
      record q {
        shuffled = some (moved_order index target x order);
        arranged =
            insert_at (arranged_place q.arranged x y.id) x (Vec.retain (other_id x) q.arranged);
      },
      moved,
      moved-MovedTo q _ i t x v (rw e at) (rw e inside) (rw e k) refl (rw e refl) (
          rearranged-SameItems order q.arranged index _ x (rw e at v.same) v.unique at
            (arranged_place-le q.arranged x y.id)),
    )

-- A move of the `i`-th upcoming entry to the place `t` of the upcoming entries.
move_within :
    (q : PlaybackQueue) (i t : ℕ) (x : QueueEntry)
    → IsValid q
    → get_elem? (upcoming q) i ≡ some x
    → t < length (upcoming q)
    → (q' : PlaybackQueue) × (move_index q (q.current + 1 + i) (q.current + 1 + t)
        ≡ ok (not (t == i)) q')
      × MovedTo i t x q q'
move_within q i t x v e h = elim (ℕ_discrete t i) [
  | yes same ↦ (
    q,
    move_index-same q (q.current + 1 + i) (q.current + 1 + t) (omega arith)
        ∙ ap (λ b. ok (not b) q) (sym ((==_iff t i).1 same)),
    record {
      start = record { same_history = refl; same_current = refl };
      after = rw same (sym (moved_order_self i x (upcoming q) e));
      arranged = λ p. refl;
    },
  )
  | no ne ↦
      let (at, inside, _) = upcoming_at q i x v e in
      let (q', moved, to_place) =
        move_elsewhere q q.shuffled i t x refl v ne at inside (omega (arith, length-upcoming q)) in
      (q', moved ∙ ap (λ b. ok (not b) q') (sym (ne_test t i ne)), to_place)
]

move_upcoming-index :
    (q : PlaybackQueue) (id j to : ℕ)
    → upcoming_index q id ≡ some j
    → move_upcoming q id to ≡ move_index q j (move_target q to)
unfolding move_upcoming
move_upcoming-index q id j to e = rw (e, move_upcoming)

-- `move_upcoming` takes the `i`-th upcoming entry to the place that `to` names, or to the last
-- place if `to` is past the end, and says whether that is another place. What has been played and
-- the current entry stay, and the arranged order keeps the same entries.
pub move_upcoming-MovedTo :
    (q : PlaybackQueue) (i to : ℕ) (x : QueueEntry)
    → IsValid q
    → length q.arranged ≤ u64_max
    → get_elem? (upcoming q) i ≡ some x
    → (q' : PlaybackQueue) × (move_upcoming q x.id to ≡ ok (not (place_of q to == i)) q')
      × MovedTo i (place_of q to) x q q'
move_upcoming-MovedTo q i to x v fits e =
    let (_, inside, found) = upcoming_at q i x v e in
    let some_upcoming = place_of-lt q to (omega (arith, lt_of_get_elem? (upcoming q) i x e)) in
    let (q', moved, to_place) = move_within q i (place_of q to) x v e some_upcoming in
    (
      q',
      move_upcoming-index q x.id (q.current + 1 + i) to found
          ∙ ap (move_index q (q.current + 1 + i))
              (move_target-place_of q to v (omega (arith, order-length v)) fits)
          ∙ moved,
      to_place,
    )

-- `jump_to` makes any entry of the queue but the current one current, played or upcoming, and
-- changes nothing else; the id of the current entry is refused, and the queue stays as it is.
pub jump_to-exact :
    (q : PlaybackQueue) (i : ℕ) (x : QueueEntry)
    → IsValid q
    → get_elem? (order_of q) i ≡ some x
    → jump_to q x.id
      ≡ (if i == q.current then err item_not_upcoming q else ok tt (record q { current = i }))
unfolding jump_to
jump_to-exact q i x v e = ground (arith, position-Unique (order_of q) i x (order-Unique v) e)

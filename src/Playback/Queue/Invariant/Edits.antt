-- ===== src/Playback/Queue/Invariant/Edits.antt =====
-- The invariant under `clear`, `clear_upcoming` and `remove_entries`
-- (backend/src/audio/playback/queue.rs).
use nice_audio_player.Prelude.{
  ℕ, ◌+◌, ◌-◌, ◌≤◌, ◌<◌, ◌≡◌, refl, sym, ap, ◌∙◌, inl, inr, Bool, true, false, ◌&&◌, not, Option,
  none, some, List, [], ◌∷◌, arith, Bool-cases, unwrap_or, is_some, count_if, SameItems,
  count_if-all, SameItems-length, count_if-and-le, count_if-not, count_if-le, length, take, drop,
  length-take,
}
use nice_audio_player.Slices.{head-eq-take, head, tail_from, tail_from-eq-drop}
use nice_audio_player.Vec
use nice_audio_player.Vec.Counts.{length-retain, count_if-retain, count_if-take-drop}
use nice_audio_player.Playback.Queue.State.{
  play_order, upcoming, QueueEntry, PlaybackQueue, is_nil, is_empty, has_id, contains,
}
use nice_audio_player.Playback.Queue.Ids.{
  Unique, contains_of_count, not-contains_of_count, retain-SameItems,
}
use nice_audio_player.Playback.Queue.Edit.{
  remove_entries, clear_upcoming, retain_shuffled, truncate_orders, clear, ids_of,
}
use nice_audio_player.Playback.Queue.Invariant.{order-length, IsValid}

pub clear-IsValid : (q : PlaybackQueue) → IsValid q → IsValid (clear q)
unfolding clear is_empty
clear-IsValid q v = record {
  unique = λ i. omega arith;
  fresh = λ i h. refl;
  same = λ p. refl;
  within = omega arith;
  shown = λ e. cc;
}

-- Cutting both orders down to what `kept` counts keeps a queue valid.
pub shrink-IsValid :
    (q q' : PlaybackQueue)
    → IsValid q
    → ((p : QueueEntry → Bool) → count_if p q'.arranged ≤ count_if p q.arranged)
    → SameItems (unwrap_or q'.shuffled q'.arranged) q'.arranged
    → q'.current ≤ length q'.arranged
    → q'.next_item_id ≡ q.next_item_id
    → (is_empty q' ≡ false → is_some q'.shuffled ≡ q'.shuffle)
    → IsValid q'
shrink-IsValid q q' v fewer same within next shown = record {
  unique = λ i. omega (arith, fewer (has_id i), v.unique i);
  fresh = λ i h. omega (arith, fewer (has_id i), v.fresh i (omega arith));
  same = same;
  within = within;
  shown = shown;
}

pub not-empty :
    (xs ys : List QueueEntry) → length xs ≤ length ys → is_nil xs ≡ false → is_nil ys ≡ false
not-empty [] ys h e = cc
not-empty (x ∷ xs) [] h e = absurd (omega arith)
not-empty (x ∷ xs) (y ∷ ys) h e = refl

pub shown_smaller :
    (q q' : PlaybackQueue)
    → IsValid q
    → length q'.arranged ≤ length q.arranged
    → q'.shuffle ≡ q.shuffle
    → is_some q'.shuffled ≡ is_some q.shuffled
    → is_empty q' ≡ false
    → is_some q'.shuffled ≡ q'.shuffle
unfolding is_empty
shown_smaller q q' v le s o e = o ∙ v.shown (not-empty q'.arranged q.arranged le e) ∙ sym s

tail_dropped :
    (xs : List QueueEntry) (n : ℕ)
    → ((e : QueueEntry)
        → count_if (has_id e.id) (drop n xs) ≡ 0
        → not (contains (ids_of (tail_from xs n)) e.id) ≡ true)
      × ((e : QueueEntry)
          → 0 < count_if (has_id e.id) (drop n xs)
          → not (contains (ids_of (tail_from xs n)) e.id) ≡ false)
tail_dropped xs n = rw (tail_from-eq-drop xs n) (
  (λ e h. ap not (not-contains_of_count (drop n xs) e.id h)),
  (λ e h. ap not (contains_of_count (drop n xs) e.id h)),
)

truncated-SameItems :
    (arranged shuffled : List QueueEntry) (n : ℕ)
    → SameItems shuffled arranged
    → Unique arranged
    → SameItems
        (take n shuffled)
        (Vec.retain (λ e. not (contains (ids_of (tail_from shuffled n)) e.id)) arranged)
truncated-SameItems arranged shuffled n same unique =
    retain-SameItems shuffled arranged (take n shuffled) (drop n shuffled) same
      (λ p. omega (arith, count_if-take-drop p n shuffled)) unique _ (tail_dropped shuffled n).0
      (tail_dropped shuffled n).1

upcoming_within :
    (q : PlaybackQueue) → is_nil (upcoming q) ≡ false → q.current + 1 ≤ length (play_order q)
unfolding upcoming
upcoming_within q h = ground arith

truncate_orders-IsValid :
    (q : PlaybackQueue) (s : Option (List QueueEntry))
    → q.shuffled ≡ s
    → IsValid q
    → q.current + 1 ≤ length q.arranged
    → IsValid (truncate_orders (q.current + 1) q s)
unfolding truncate_orders
truncate_orders-IsValid q none e v h =
    shrink-IsValid q _ v (λ p. omega (arith, count_if-take-drop p (q.current + 1) q.arranged))
      (rw e (λ p. refl)) (omega (arith, length-take (q.current + 1) q.arranged)) refl
      (shown_smaller q _ v (omega (arith, length-take (q.current + 1) q.arranged)) refl refl)
truncate_orders-IsValid q (some shuffled) e v h = shrink-IsValid q _ v fewer same within refl shown
  where
    keep : QueueEntry → Bool
    keep entry = not (contains (ids_of (tail_from shuffled (q.current + 1))) entry.id)

    fewer :
        (p : QueueEntry → Bool) → count_if p (Vec.retain keep q.arranged) ≤ count_if p q.arranged
    fewer p = omega (arith, count_if-retain p keep q.arranged, count_if-and-le p keep q.arranged)

    same : SameItems (take (q.current + 1) shuffled) (Vec.retain keep q.arranged)
    same = truncated-SameItems q.arranged shuffled (q.current + 1) (rw e at v.same) v.unique

    within : q.current ≤ length (Vec.retain keep q.arranged)
    within = omega (
      arith,
      SameItems-length (take (q.current + 1) shuffled) (Vec.retain keep q.arranged) same,
      length-take (q.current + 1) shuffled,
      SameItems-length shuffled q.arranged (rw e at v.same),
    )

    shown :
        is_empty (record q {
          shuffled = some (take (q.current + 1) shuffled);
          arranged = Vec.retain keep q.arranged;
        })
          ≡ false
        → true ≡ q.shuffle
    shown n =
        shown_smaller q
          (record q {
            shuffled = some (take (q.current + 1) shuffled);
            arranged = Vec.retain keep q.arranged;
          })
          v
          (omega (
            arith,
            length-retain keep q.arranged,
            count_if-all q.arranged,
            count_if-le keep q.arranged,
          ))
          refl (rw e refl) n

pub clear_upcoming-IsValid : (q : PlaybackQueue) → IsValid q → IsValid (clear_upcoming q).1
unfolding clear_upcoming
clear_upcoming-IsValid q v = elim (Bool-cases (is_nil (upcoming q))) [
  | inl e ↦ rw e v
  | inr e ↦ rw e (
      truncate_orders-IsValid q q.shuffled refl v
        (omega (arith, upcoming_within q e, order-length v)))
]

retain_shuffled-SameItems :
    (keep : QueueEntry → Bool) (s : Option (List QueueEntry)) (arranged : List QueueEntry)
    → SameItems (unwrap_or s arranged) arranged
    → SameItems
        (unwrap_or (retain_shuffled keep s) (Vec.retain keep arranged))
        (Vec.retain keep arranged)
retain_shuffled-SameItems keep none arranged same p = refl
retain_shuffled-SameItems keep (some order) arranged same p =
    count_if-retain p keep order ∙ same (λ x. keep x && p x) ∙ sym (count_if-retain p keep arranged)

is_some-retain_shuffled :
    (keep : QueueEntry → Bool) (s : Option (List QueueEntry))
    → is_some (retain_shuffled keep s) ≡ is_some s
is_some-retain_shuffled keep none = refl
is_some-retain_shuffled keep (some order) = refl

-- How many entries before the position stay.
pub kept_before :
    (gone : QueueEntry → Bool) (order : List QueueEntry) (n : ℕ)
    → n ≤ length order
    → n - length (Vec.retain gone (head order n)) ≡ count_if (λ e. not (gone e)) (take n order)
kept_before gone order n h = omega (
  arith,
  ap (λ xs. length (Vec.retain gone xs)) (head-eq-take order n),
  length-retain gone (take n order),
  count_if-not gone (take n order),
  length-take n order,
)

pub remove_entries-IsValid :
    (q : PlaybackQueue) (ids : List ℕ) → IsValid q → IsValid (remove_entries q ids).1
unfolding remove_entries is_empty
remove_entries-IsValid q ids v =
    elim (Bool-cases (Vec.any (λ e. contains ids e.id) (play_order q))) [
      | inl e ↦ rw e (shrink-IsValid q _ v fewer same within refl shown)
      | inr e ↦ rw e v
    ]
  where
    kept : QueueEntry → Bool
    kept e = not (contains ids e.id)

    order : List QueueEntry
    order = unwrap_or q.shuffled q.arranged

    fewer :
        (p : QueueEntry → Bool) → count_if p (Vec.retain kept q.arranged) ≤ count_if p q.arranged
    fewer p = omega (arith, count_if-retain p kept q.arranged, count_if-and-le p kept q.arranged)

    same :
        SameItems
          (unwrap_or (retain_shuffled kept q.shuffled) (Vec.retain kept q.arranged))
          (Vec.retain kept q.arranged)
    same = retain_shuffled-SameItems kept q.shuffled q.arranged v.same

    within :
        q.current - length (Vec.retain (λ e. contains ids e.id) (head order q.current))
        ≤ length (Vec.retain kept q.arranged)
    within = omega (
      arith,
      kept_before (λ e. contains ids e.id) order q.current
          (omega (arith, order-length v, v.within)),
      count_if-take-drop kept q.current order,
      v.same kept,
      length-retain kept q.arranged,
    )

    shown :
        is_nil (Vec.retain kept q.arranged) ≡ false
        → is_some (retain_shuffled kept q.shuffled) ≡ q.shuffle
    shown n =
        is_some-retain_shuffled kept q.shuffled
        ∙ v.shown (
            not-empty (Vec.retain kept q.arranged) q.arranged
              (omega (arith, length-retain kept q.arranged, count_if-le kept q.arranged)) n)

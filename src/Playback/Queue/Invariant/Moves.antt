-- ===== src/Playback/Queue/Invariant/Moves.antt =====
-- The invariant under `move_upcoming` and `jump_to`
-- (backend/src/audio/playback/queue.rs).
use nice_audio_player.Playback.Queue.Edit.{upcoming_index}
use nice_audio_player.Playback.Queue.Invariant.{order-length, Leaves, IsValid}
use nice_audio_player.Prelude.{
  ◌==◌, Bool-cases, ◌≢◌, ◌∙◌, unwrap_or, true, sym, refl, none, is_some, inr, inl, false, SameItems,
  Option-cases, Option, ◌≤◌, ◌≡◌, ◌∷◌, ◌<◌, ◌-◌, ◌+◌, ◌++◌, ℕ, take, some, length, get_elem?-lt,
  get_elem?, drop, count_if, arith, [], SameItems-length, List, Bool,
}
use nice_audio_player.Vec
use native.Mathlib.Decide.{ℕ_discrete}
use nice_audio_player.Playback.Queue.Ids.{Unique}
use nice_audio_player.Playback.Queue.Invariant.Edits.{shrink-IsValid, shown_smaller}
use nice_audio_player.Vec.Counts.{count_if-removed, remove-get, position-lt, count_if-splice}
use nice_audio_player.Playback.Queue.State.{is_empty, ok, PlaybackQueue, QueueEntry, has_id}
use nice_audio_player.Playback.Queue.Move.{
  move_target, move_index, move_upcoming, jump_to, move_in_order, after_position, rearrange,
}
use nice_audio_player.Playback.Queue.Invariant.Removal.{
  upcoming_index-found, others-SameItems, without_at, length-without_at, other_id,
}

unfoldable pub insert_at : ℕ → QueueEntry → List QueueEntry → List QueueEntry
insert_at n x xs = take n xs ++ (x ∷ drop n xs)

pub insert-insert_at :
    (n : ℕ) (x : QueueEntry) (xs : List QueueEntry)
    → n ≤ length xs
    → Vec.insert xs n x ≡ some (insert_at n x xs)
unfolding Vec.insert insert_at
insert-insert_at n x xs h = ground arith

pub count_if-insert_at :
    (p : QueueEntry → Bool) (n : ℕ) (x : QueueEntry) (xs : List QueueEntry)
    → n ≤ length xs
    → count_if p (insert_at n x xs) ≡ count_if p (x ∷ []) + count_if p xs
count_if-insert_at p n x xs h =
    count_if-splice p xs n (x ∷ []) (insert_at n x xs)
      (unfold Vec.insert in insert-insert_at n x xs h)

-- The order after an entry has moved from `index` to `target`.
unfoldable pub moved_order : ℕ → ℕ → QueueEntry → List QueueEntry → List QueueEntry
moved_order index target x order = insert_at target x (without_at index order)

pub count_if-moved_order :
    (p : QueueEntry → Bool) (index target : ℕ) (x : QueueEntry) (order : List QueueEntry)
    → get_elem? order index ≡ some x
    → target < length order
    → index < length order
    → count_if p (moved_order index target x order) ≡ count_if p order
unfolding moved_order
count_if-moved_order p index target x order e h k = omega (
  arith,
  count_if-insert_at p target x (without_at index order)
      (omega (arith, length-without_at index order k)),
  count_if-removed p order index x e,
)

pub length-moved_order :
    (index target : ℕ) (x : QueueEntry) (order : List QueueEntry)
    → get_elem? order index ≡ some x
    → target < length order
    → index < length order
    → length (moved_order index target x order) ≡ length order
length-moved_order index target x order e h k =
    SameItems-length _ order (λ p. count_if-moved_order p index target x order e h k)

pub move_in_order-moved :
    (order : List QueueEntry) (index target : ℕ) (x : QueueEntry)
    → get_elem? order index ≡ some x
    → target < length order
    → index < length order
    → (y : QueueEntry) × (get_elem? (moved_order index target x order) (target - 1) ≡ some y)
      × (move_in_order order index target
          ≡ some (record {
            entry = x;
            predecessor = some y.id;
            order = moved_order index target x order;
          }))
unfolding move_in_order moved_order
move_in_order-moved order index target x e h k =
    let (y, at) =
      get_elem?-lt (moved_order index target x order) (target - 1)
        (omega (arith, length-moved_order index target x order e h k)) in
    (
      y,
      at,
      ground (
        arith,
        remove-get order index x e,
        insert-insert_at target x (without_at index order)
            (omega (arith, length-without_at index order k)),
      ),
    )

-- Where the arranged order takes the moved entry: inside it.
unfoldable pub arranged_place : List QueueEntry → QueueEntry → ℕ → ℕ
arranged_place arranged x predecessor =
    let others = Vec.retain (other_id x) arranged in
    after_position (Vec.position (has_id predecessor) others) (length others)

pub after_position-le :
    (xs : List QueueEntry) (i : ℕ)
    → after_position (Vec.position (has_id i) xs) (length xs) ≤ length xs
after_position-le xs i = elim (Option-cases (Vec.position (has_id i) xs)) [
  | inl e ↦ rw e (omega arith)
  | inr (j, e) ↦ rw e (omega (arith, position-lt (has_id i) xs j e))
]

pub arranged_place-le :
    (arranged : List QueueEntry) (x : QueueEntry) (predecessor : ℕ)
    → arranged_place arranged x predecessor ≤ length (Vec.retain (other_id x) arranged)
unfolding arranged_place
arranged_place-le arranged x predecessor =
    after_position-le (Vec.retain (other_id x) arranged) predecessor

pub rearrange-inserts :
    (arranged : List QueueEntry) (x : QueueEntry) (predecessor : ℕ)
    → rearrange arranged x predecessor
      ≡ some
          (insert_at (arranged_place arranged x predecessor) x (Vec.retain (other_id x) arranged))
unfolding rearrange arranged_place
rearrange-inserts arranged x predecessor =
    insert-insert_at _ x (Vec.retain (other_id x) arranged)
      (after_position-le (Vec.retain (other_id x) arranged) predecessor)

-- The test `target == index` passes: nothing moves.
pub move_index-same :
    (q : PlaybackQueue) (index target : ℕ) → target ≡ index → move_index q index target ≡ ok false q
unfolding move_index
move_index-same q index target e = ground arith

pub move_index-plain :
    (q : PlaybackQueue) (index target : ℕ) (x : QueueEntry)
    → q.shuffled ≡ none
    → target ≢ index
    → get_elem? q.arranged index ≡ some x
    → target < length q.arranged
    → index < length q.arranged
    → move_index q index target
      ≡ ok true (record q { arranged = moved_order index target x q.arranged })
unfolding move_index
move_index-plain q index target x e ne at h k =
    let (y, _, moved) = move_in_order-moved q.arranged index target x at h k in
    ground (arith, moved)

pub move_index-shuffled :
    (q : PlaybackQueue) (order : List QueueEntry) (index target : ℕ) (x : QueueEntry)
    → q.shuffled ≡ some order
    → target ≢ index
    → get_elem? order index ≡ some x
    → target < length order
    → index < length order
    → (y : QueueEntry) × (get_elem? (moved_order index target x order) (target - 1) ≡ some y)
      × (move_index q index target
          ≡ ok true (record q {
            shuffled = some (moved_order index target x order);
            arranged =
                insert_at (arranged_place q.arranged x y.id) x (Vec.retain (other_id x) q.arranged);
          }))
unfolding move_index
move_index-shuffled q order index target x e ne at h k =
    let (y, before, moved) = move_in_order-moved order index target x at h k in
    (y, before, ground (arith, moved, rearrange-inserts q.arranged x y.id))

-- The counts of the arranged order do not change when one entry is put elsewhere.
pub rearranged-SameItems :
    (order arranged : List QueueEntry) (i n : ℕ) (x : QueueEntry)
    → SameItems order arranged
    → Unique arranged
    → get_elem? order i ≡ some x
    → n ≤ length (Vec.retain (other_id x) arranged)
    → SameItems (insert_at n x (Vec.retain (other_id x) arranged)) arranged
rearranged-SameItems order arranged i n x same unique at h p = omega (
  arith,
  count_if-insert_at p n x (Vec.retain (other_id x) arranged) h,
  others-SameItems order arranged i x same unique at p,
  count_if-removed p order i x at,
  same p,
)

-- Rearranging both orders keeps a queue valid.
pub rearranged-IsValid :
    (q q' : PlaybackQueue)
    → IsValid q
    → SameItems q'.arranged q.arranged
    → SameItems (unwrap_or q'.shuffled q'.arranged) q'.arranged
    → q'.current ≤ length q'.arranged
    → q'.next_item_id ≡ q.next_item_id
    → q'.shuffle ≡ q.shuffle
    → is_some q'.shuffled ≡ is_some q.shuffled
    → IsValid q'
rearranged-IsValid q q' v base same within next shuffle shuffled =
    shrink-IsValid q q' v (λ p. omega (arith, base p)) same within next
      (shown_smaller q q' v (omega (arith, SameItems-length q'.arranged q.arranged base)) shuffle
        shuffled)

move_index-IsValid :
    (q : PlaybackQueue) (s : Option (List QueueEntry)) (index target : ℕ) (x : QueueEntry)
    → q.shuffled ≡ s
    → IsValid q
    → target ≢ index
    → get_elem? (unwrap_or s q.arranged) index ≡ some x
    → target < length (unwrap_or s q.arranged)
    → index < length (unwrap_or s q.arranged)
    → Leaves IsValid (move_index q index target)
move_index-IsValid q none index target x e v ne at h k =
    rw (move_index-plain q index target x e ne at h k) (
      rearranged-IsValid q _ v (λ p. count_if-moved_order p index target x q.arranged at h k)
        (rw e (λ p. refl))
        (omega (arith, v.within, length-moved_order index target x q.arranged at h k)) refl refl
        refl)
move_index-IsValid q (some order) index target x e v ne at h k =
    let (y, _, moved) = move_index-shuffled q order index target x e ne at h k in
    let rest = Vec.retain (other_id x) q.arranged in
    let same : SameItems order q.arranged = rw e at v.same in
    let base : SameItems (insert_at (arranged_place q.arranged x y.id) x rest) q.arranged =
      rearranged-SameItems order q.arranged index _ x same v.unique at
        (arranged_place-le q.arranged x y.id) in
    rw moved (
      rearranged-IsValid q _ v base
        (λ p. count_if-moved_order p index target x order at h k ∙ same p ∙ sym (base p))
        (omega (arith, v.within, SameItems-length _ q.arranged base)) refl refl (rw e refl))

target_bounds :
    (q : PlaybackQueue) (to index : ℕ)
    → q.current < index
    → index < length q.arranged
    → move_target q to < length q.arranged
unfolding move_target
target_bounds q to index h k = omega arith

pub move_upcoming-IsValid :
    (q : PlaybackQueue) (id to : ℕ) → IsValid q → Leaves IsValid (move_upcoming q id to)
unfolding move_upcoming
move_upcoming-IsValid q id to v = elim (Option-cases (upcoming_index q id)) [
  | inl e ↦ rw (e, move_upcoming) v
  | inr (i, e) ↦
      let (x, at, _, after, inside) = upcoming_index-found q id i e in
      let inside' : i < length q.arranged = omega (arith, order-length v) in
      let target = target_bounds q to i after inside' in
      rw (e, move_upcoming)
        (elim (ℕ_discrete (move_target q to) i) [
          | yes same ↦ rw (move_index-same q i (move_target q to) same) v
          | no ne ↦
              move_index-IsValid q q.shuffled i (move_target q to) x refl v ne at
                (omega (arith, order-length v)) inside
        ])
]

pub jump_to-IsValid : (q : PlaybackQueue) (id : ℕ) → IsValid q → Leaves IsValid (jump_to q id)
unfolding jump_to is_empty
jump_to-IsValid q id v =
    elim (Option-cases (Vec.position (has_id id) (unwrap_or q.shuffled q.arranged))) [
      | inl e ↦ rw (e, jump_to) v
      | inr (i, e) ↦ elim (Bool-cases (i == q.current)) [
        | inl same ↦ rw (e, same, jump_to) v
        | inr other ↦
            rw (e, other, jump_to)
              (record {
                unique = v.unique;
                fresh = v.fresh;
                same = v.same;
                within = omega (
                  arith,
                  position-lt (has_id id) (unwrap_or q.shuffled q.arranged) i e,
                  order-length v,
                );
                shown = v.shown;
              })
      ]
    ]

-- ===== src/Playback/Queue/Invariant/Removal.antt =====
-- The invariant under `remove_upcoming`
-- (backend/src/audio/playback/queue.rs).
use nice_audio_player.Playback.Queue.Invariant.Edits.{shrink-IsValid, not-empty}
use nice_audio_player.Vec.Counts.{
  length-retain, count_if-retain, remove-get, position-lt, count_if-removed, position-get,
}
use nice_audio_player.Playback.Queue.Ids.{retain-SameItems, Unique}
use nice_audio_player.Playback.Queue.Invariant.{Leaves, IsValid}
use nice_audio_player.Playback.Queue.Edit.{remove_upcoming, remove_at, upcoming_index}
use nice_audio_player.Prelude.{
  none, count_if-le, refl, true, SameItems-length, count_if-and-le, is_some, false, inr, inl, ◌≤◌,
  length-drop, ==_iff, length-take, length-append, [], suc, ◌∷◌, arith, count_if, Option-cases,
  drop, ◌+◌, some, Option, length, ◌==◌, ◌++◌, SameItems, ◌≡◌, not, take, unwrap_or, ◌<◌, List,
  Bool, get_elem?, ℕ,
}
use nice_audio_player.Vec
use nice_audio_player.Playback.Queue.State.{ok, is_nil, has_id, is_empty, PlaybackQueue, QueueEntry}

-- What `upcoming_index` finds: an entry with the id, after the current one.
pub upcoming_index-found :
    (q : PlaybackQueue) (id i : ℕ)
    → upcoming_index q id ≡ some i
    → (x : QueueEntry) × (get_elem? (unwrap_or q.shuffled q.arranged) i ≡ some x)
      × (x.id ≡ id)
      × (q.current < i)
      × (i < length (unwrap_or q.shuffled q.arranged))
unfolding upcoming_index
upcoming_index-found q id i e =
    let order = unwrap_or q.shuffled q.arranged in
    let found : Vec.position (has_id id) order ≡ some i = ground arith in
    let (x, at, same) = position-get (has_id id) order i found in
    (x, at, (==_iff x.id id).0 same, ground arith, position-lt (has_id id) order i found)

-- The order without the entry at an index.
abbrev pub without_at : ℕ → List QueueEntry → List QueueEntry
without_at i order = take i order ++ drop (suc i) order

pub length-without_at :
    (i : ℕ) (order : List QueueEntry)
    → i < length order
    → length (without_at i order) + 1 ≡ length order
length-without_at i order h = omega (
  arith,
  length-append (take i order) (drop (suc i) order),
  length-take i order,
  length-drop (suc i) order,
)

-- The test of the two `retain` calls that drop one entry by its id.
abbrev pub other_id : QueueEntry → QueueEntry → Bool
other_id removed entry = not (entry.id == removed.id)

pub others-SameItems :
    (order arranged : List QueueEntry) (i : ℕ) (x : QueueEntry)
    → SameItems order arranged
    → Unique arranged
    → get_elem? order i ≡ some x
    → SameItems (without_at i order) (Vec.retain (other_id x) arranged)
others-SameItems order arranged i x same unique e =
    retain-SameItems order arranged (without_at i order) (x ∷ []) same
      (λ p. count_if-removed p order i x e) unique (other_id x) (λ y h. ground arith)
      (λ y h. ground arith)

pub remove_at-plain :
    (q : PlaybackQueue) (i : ℕ) (x : QueueEntry)
    → q.shuffled ≡ none
    → get_elem? q.arranged i ≡ some x
    → remove_at q i ≡ ok tt (record q { arranged = without_at i q.arranged })
unfolding remove_at
remove_at-plain q i x e at = ground (arith, remove-get q.arranged i x at)

pub remove_at-shuffled :
    (q : PlaybackQueue) (order : List QueueEntry) (i : ℕ) (x : QueueEntry)
    → q.shuffled ≡ some order
    → get_elem? order i ≡ some x
    → remove_at q i
      ≡ ok tt (record q {
        shuffled = some (without_at i order);
        arranged = Vec.retain (other_id x) q.arranged;
      })
unfolding remove_at
remove_at-shuffled q order i x e at = ground (arith, remove-get order i x at)

remove_at-IsValid :
    (q : PlaybackQueue) (s : Option (List QueueEntry)) (i : ℕ) (x : QueueEntry)
    → q.shuffled ≡ s
    → IsValid q
    → get_elem? (unwrap_or s q.arranged) i ≡ some x
    → q.current < i
    → i < length (unwrap_or s q.arranged)
    → Leaves IsValid (remove_at q i)
unfolding is_empty
remove_at-IsValid q none i x e v at after inside =
    rw (remove_at-plain q i x e at)
      (shrink-IsValid q _ v fewer (rw e (λ p. refl)) within refl shown)
  where
    fewer : (p : QueueEntry → Bool) → count_if p (without_at i q.arranged) ≤ count_if p q.arranged
    fewer p = omega (arith, count_if-removed p q.arranged i x at)

    within : q.current ≤ length (without_at i q.arranged)
    within = omega (arith, length-without_at i q.arranged inside)

    shown : is_nil (without_at i q.arranged) ≡ false → is_some q.shuffled ≡ q.shuffle
    shown n = v.shown (
        not-empty (without_at i q.arranged) q.arranged
          (omega (arith, length-without_at i q.arranged inside)) n)
remove_at-IsValid q (some order) i x e v at after inside =
    rw (remove_at-shuffled q order i x e at) (shrink-IsValid q _ v fewer same within refl shown)
  where
    kept : List QueueEntry
    kept = Vec.retain (other_id x) q.arranged

    fewer : (p : QueueEntry → Bool) → count_if p kept ≤ count_if p q.arranged
    fewer p = omega (
      arith,
      count_if-retain p (other_id x) q.arranged,
      count_if-and-le p (other_id x) q.arranged,
    )

    same : SameItems (without_at i order) kept
    same = others-SameItems order q.arranged i x (rw e at v.same) v.unique at

    within : q.current ≤ length kept
    within =
        omega
          (arith, SameItems-length (without_at i order) kept same, length-without_at i order inside)

    shown : is_nil kept ≡ false → true ≡ q.shuffle
    shown n = rw e at (
        v.shown (
          not-empty kept q.arranged
            (omega
              (arith, length-retain (other_id x) q.arranged, count_if-le (other_id x) q.arranged))
            n))

pub remove_upcoming-IsValid :
    (q : PlaybackQueue) (id : ℕ) → IsValid q → Leaves IsValid (remove_upcoming q id)
unfolding remove_upcoming
remove_upcoming-IsValid q id v = elim (Option-cases (upcoming_index q id)) [
  | inl e ↦ rw (e, remove_upcoming) v
  | inr (i, e) ↦
      let (x, at, _, after, inside) = upcoming_index-found q id i e in
      rw (e, remove_upcoming) (remove_at-IsValid q q.shuffled i x refl v at after inside)
]

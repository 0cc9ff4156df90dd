-- ===== src/Playback/Queue/Effects/Views.antt =====
-- The views of a queue are the parts of its play order around the position.
use nice_audio_player.Prelude.{
  ◌<◌, lt_of_get_elem?, ◌≤◌, ◌∙◌, zero, length, [], ◌++◌, true, take-append-drop, sym, ap, All, ◌≡◌,
  ◌∷◌, ◌+◌, ℕ, unwrap_or, take, suc, some, get_elem?, drop_of_length-le, drop, arith, List,
}
use nice_audio_player.Vec
use mathlib.Core.Path.{◌≡⟨◌⟩◌, ◌∎}
use nice_audio_player.Vec
use nice_audio_player.Vec.Parts.{
  get_elem?-drop, take-take, get_elem?-of_take, drop-get, retain-append, retain_same,
}
use nice_audio_player.Playback.Queue.State.{
  PlaybackQueue, QueueEntry, current_entry, history, upcoming, has_id,
}
use nice_audio_player.Playback.Queue.Ids.{Unique, All-of_ids}
use nice_audio_player.Playback.Queue.Edit.{upcoming_index}
use nice_audio_player.Playback.Queue.Invariant.{order-Unique, IsValid, order-length}
use nice_audio_player.Playback.Queue.Invariant.Removal.{without_at, other_id}
use nice_audio_player.Vec.Counts.{count_if-get}

abbrev pub order_of : PlaybackQueue → List QueueEntry
order_of q = unwrap_or q.shuffled q.arranged

pub upcoming-eq-drop : (q : PlaybackQueue) → upcoming q ≡ drop (q.current + 1) (order_of q)
unfolding upcoming
upcoming-eq-drop q =
    ground (arith, drop_of_length-le (q.current + 1) (unwrap_or q.shuffled q.arranged))

pub history_within :
    (q : PlaybackQueue) → q.current ≤ length (order_of q) → history q ≡ take q.current (order_of q)
unfolding history
history_within q h = ground arith

pub history-eq-take : (q : PlaybackQueue) → IsValid q → history q ≡ take q.current (order_of q)
history-eq-take q v = history_within q (omega (arith, order-length v, v.within))

-- What an operation that keeps the played and the current entries leaves unchanged.
pub record SameStart (q q' : PlaybackQueue) : Type 0 where
  pub same_history : history q' ≡ history q
  pub same_current : current_entry q' ≡ current_entry q

-- A change of the play order after the current entry leaves those views in place.
pub SameStart-of_take :
    (q q' : PlaybackQueue)
    → q.current ≤ length (order_of q)
    → q'.current ≡ q.current
    → q'.current ≤ length (order_of q')
    → take (q.current + 1) (order_of q') ≡ take (q.current + 1) (order_of q)
    → SameStart q q'
unfolding current_entry
SameStart-of_take q q' h c within e = record {
  same_history =
      history_within q' within
      ∙ rw c (sym (take-take q.current (q.current + 1) (order_of q') (omega arith)))
      ∙ ap (take q.current) e
      ∙ take-take q.current (q.current + 1) (order_of q) (omega arith)
      ∙ sym (history_within q h);
  same_current =
      rw c (get_elem?-of_take q.current (q.current + 1) (order_of q') (order_of q) (omega arith) e);
}

-- In an order whose ids are distinct, dropping an id drops one place.
module _ (xs : List QueueEntry) (i : ℕ) (x : QueueEntry) (u : Unique xs)
    (e : get_elem? xs i ≡ some x) where
  pub others_before : All (λ y. other_id x y ≡ true) (take i xs)
  others_before =
      All-of_ids _ (take i xs) λ y h. ground (arith, count_if-get (has_id y.id) xs i x e, u y.id)

  others_after : All (λ y. other_id x y ≡ true) (drop (suc i) xs)
  others_after =
      All-of_ids _ (drop (suc i) xs)
        λ y h. ground (arith, count_if-get (has_id y.id) xs i x e, u y.id)

  pub retain-without_at : Vec.retain (other_id x) xs ≡ without_at i xs
  unfolding Vec.retain
  retain-without_at =
      Vec.retain (other_id x) xs
      ≡⟨ ap (Vec.retain (other_id x)) (sym (take-append-drop i xs)) ⟩
        Vec.retain (other_id x) (take i xs ++ drop i xs)
      ≡⟨ retain-append (other_id x) (take i xs) (drop i xs) ⟩
        Vec.retain (other_id x) (take i xs) ++ Vec.retain (other_id x) (drop i xs)
      ≡⟨ rw (drop-get xs i x e, retain_same (other_id x) (take i xs) others_before)
          (ap (◌++◌ (take i xs)) (rest)) ⟩
        without_at i xs ∎
    where
      rest : Vec.retain (other_id x) (x ∷ drop (suc i) xs) ≡ drop (suc i) xs
      rest = ground (arith, retain_same (other_id x) (drop (suc i) xs) others_after)

-- Where the ids are distinct, an entry is found by its id.
pub position-Unique :
    (xs : List QueueEntry) (i : ℕ) (x : QueueEntry)
    → Unique xs
    → get_elem? xs i ≡ some x
    → Vec.position (has_id x.id) xs ≡ some i
unfolding Vec.position
position-Unique [] i x u e = cc
position-Unique (y ∷ ys) zero x u e = ground arith
position-Unique (y ∷ ys) (suc i) x u e = ground (
  arith,
  count_if-get (has_id x.id) ys i x e,
  u x.id,
  position-Unique ys i x (λ j. omega (arith, u j)) e,
)

-- An upcoming entry is found by its id, after the current one.
pub upcoming_at :
    (q : PlaybackQueue) (i : ℕ) (x : QueueEntry)
    → IsValid q
    → get_elem? (upcoming q) i ≡ some x
    → (get_elem? (order_of q) (q.current + 1 + i) ≡ some x)
      × (q.current + 1 + i < length (order_of q))
      × (upcoming_index q x.id ≡ some (q.current + 1 + i))
unfolding upcoming_index
upcoming_at q i x v e = (at, lt_of_get_elem? (order_of q) (q.current + 1 + i) x at, found)
  where
    at : get_elem? (order_of q) (q.current + 1 + i) ≡ some x
    at = sym (get_elem?-drop (q.current + 1) i (order_of q)) ∙ rw (upcoming-eq-drop q) at e

    found : upcoming_index q x.id ≡ some (q.current + 1 + i)
    found = ground (arith, position-Unique (order_of q) (q.current + 1 + i) x (order-Unique v) at)

-- ===== src/Playback/Queue/Ids.antt =====
-- Orders whose ids are distinct, and the entries that the queue makes.
use nice_audio_player.Prelude.{
  ℕ, suc, ◌+◌, ◌≤◌, ◌<◌, ◌≡◌, refl, ap, Bool, true, false, ◌&&◌, List, [], ◌∷◌, map, arith,
  count_if, SameItems, All, count_if-All_kept, count_if-All_dropped, length,
}
use nice_audio_player.Vec
use nice_audio_player.Vec.Counts.{count_if-retain}
use nice_audio_player.Playback.Queue.State.{
  QueueEntry, PlaybackQueue, has_id, contains, new_entries, u64_max,
}
use nice_audio_player.Playback.Queue.Edit.{ids_of}

abbrev pub Unique : List QueueEntry → Type 0
Unique es = (i : ℕ) → count_if (has_id i) es ≤ 1

pub All-of_ids {ℓ} :
    (P : QueueEntry → Type ℓ) (es : List QueueEntry)
    → ((e : QueueEntry) → 0 < count_if (has_id e.id) es → P e)
    → All P es
All-of_ids P [] h = tt
All-of_ids P (e ∷ es) h = (h e (ground arith), All-of_ids P es (λ x k. h x (omega arith)))

pub contains_of_count :
    (es : List QueueEntry) (i : ℕ) → 0 < count_if (has_id i) es → contains (ids_of es) i ≡ true
unfolding contains
contains_of_count [] i h = absurd (omega arith)
contains_of_count (e ∷ es) i h = ground (arith, contains_of_count es i)

pub not-contains_of_count :
    (es : List QueueEntry) (i : ℕ) → count_if (has_id i) es ≡ 0 → contains (ids_of es) i ≡ false
unfolding contains
not-contains_of_count [] i h = refl
not-contains_of_count (e ∷ es) i h = ground (arith, not-contains_of_count es i)

-- An order whose ids are distinct is made of `stay` and `go`. A test that tells the two apart by
-- their ids leaves exactly `stay` of any arrangement of the order.
module _ (order arranged stay go : List QueueEntry) (same : SameItems order arranged)
    (split : (p : QueueEntry → Bool) → count_if p go + count_if p stay ≡ count_if p order)
    (unique : Unique arranged) (keep : QueueEntry → Bool)
    (keeps : (e : QueueEntry) → count_if (has_id e.id) go ≡ 0 → keep e ≡ true)
    (drops : (e : QueueEntry) → 0 < count_if (has_id e.id) go → keep e ≡ false) where
  stay_kept : All (λ e. keep e ≡ true) stay
  stay_kept =
      All-of_ids _ stay
        λ e h. keeps e (omega (arith, split (has_id e.id), same (has_id e.id), unique e.id))

  pub retain-SameItems : SameItems stay (Vec.retain keep arranged)
  retain-SameItems p = omega (
    arith,
    count_if-retain p keep arranged,
    same (λ e. keep e && p e),
    split (λ e. keep e && p e),
    count_if-All_kept p stay keep stay_kept,
    count_if-All_dropped p go keep (All-of_ids _ go drops),
  )

-- The entries that `new_entries` makes while the counter does not saturate.
pub numbered : ℕ → List ℕ → List QueueEntry
numbered n [] = []
numbered n (t ∷ ts) = record { id = n; track_id = t } ∷ numbered (suc n) ts

pub new_entries-numbered :
    (q : PlaybackQueue) (ts : List ℕ)
    → q.next_item_id + length ts ≤ u64_max
    → new_entries q ts
      ≡ (numbered q.next_item_id ts, record q { next_item_id = q.next_item_id + length ts })
unfolding new_entries numbered
new_entries-numbered q [] h = ground arith
new_entries-numbered q (t ∷ ts) h =
    ground (arith, new_entries-numbered (record q { next_item_id = suc q.next_item_id }) ts)

pub length-numbered : (n : ℕ) (ts : List ℕ) → length (numbered n ts) ≡ length ts
unfolding numbered
length-numbered n [] = refl
length-numbered n (t ∷ ts) = ap suc (length-numbered (suc n) ts)

pub numbered_below : (n i : ℕ) (ts : List ℕ) → i < n → count_if (has_id i) (numbered n ts) ≡ 0
unfolding numbered
numbered_below n i [] h = refl
numbered_below n i (t ∷ ts) h = ground (arith, numbered_below (suc n) i ts)

pub numbered_above :
    (n i : ℕ) (ts : List ℕ) → n + length ts ≤ i → count_if (has_id i) (numbered n ts) ≡ 0
unfolding numbered
numbered_above n i [] h = refl
numbered_above n i (t ∷ ts) h = ground (arith, numbered_above (suc n) i ts)

pub numbered-Unique : (n : ℕ) (ts : List ℕ) → Unique (numbered n ts)
unfolding numbered
numbered-Unique n [] i = omega arith
numbered-Unique n (t ∷ ts) i =
    ground (arith, numbered-Unique (suc n) ts i, numbered_below (suc n) i ts)

pub numbered-track_ids : (n : ℕ) (ts : List ℕ) → map (λ e. e.track_id) (numbered n ts) ≡ ts
unfolding numbered
numbered-track_ids n [] = refl
numbered-track_ids n (t ∷ ts) = ap (◌∷◌ t) (numbered-track_ids (suc n) ts)

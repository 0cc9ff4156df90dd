-- ===== src/Playback/Queue/Effects/Edits.antt =====
-- What the edits that take entries out of the queue do.
use nice_audio_player.Playback.Queue.Move.{move_upcoming}
use nice_audio_player.Prelude.{
  sub_back, inr, inl, count_if-pos, Option-cases, ==_iff, ◌∙◌, ◌<◌, true, subst, length-take,
  get_elem?, ap, All, ◌≤◌, ◌≡◌, ◌-◌, ◌+◌, ℕ, unwrap_or, take, sym, some, refl, not, none, length,
  if-cases, drop, count_if, arith, Option, List, Bool,
}
use nice_audio_player.Slices.{head}
use nice_audio_player.Vec
use nice_audio_player.Vec.Counts.{any-count, retain-take, retain-drop, count_if-take-drop}
use nice_audio_player.Vec.Parts.{
  get_elem?-drop, All-take, take-retain, drop-retain, retain_same, All-of_count, take-take,
}
use nice_audio_player.Playback.Queue.State.{
  PlaybackQueue, QueueEntry, ok, err, item_not_upcoming, upcoming, has_id, contains,
}
use nice_audio_player.Playback.Queue.Edit.{
  remove_at, remove_upcoming, upcoming_index, remove_at, retain_shuffled, remove_entries,
  remove_upcoming, upcoming_index,
}
use nice_audio_player.Playback.Queue.Invariant.{IsValid, order-length, order-Unique}
use nice_audio_player.Playback.Queue.Invariant.Edits.{kept_before}
use nice_audio_player.Playback.Queue.Invariant.Removal.{
  without_at, other_id, remove_at-plain, remove_at-shuffled, upcoming_index-found,
}
use nice_audio_player.Playback.Queue.Effects.Views.{
  upcoming_at, SameStart-of_take, others_before, order_of, SameStart, retain-without_at,
  upcoming-eq-drop,
}

-- The current entry and all that follow it.
abbrev pub from_current : PlaybackQueue → List QueueEntry
from_current q = drop q.current (order_of q)

abbrev pub stays : List ℕ → QueueEntry → Bool
stays ids e = not (contains ids e.id)

-- What `remove_entries` leaves: every part of the queue without the entries of those ids.
pub record Without (ids : List ℕ) (q q' : PlaybackQueue) : Type 0 where
  pub played : take q'.current (order_of q') ≡ Vec.retain (stays ids) (take q.current (order_of q))
  pub rest : from_current q' ≡ Vec.retain (stays ids) (from_current q)
  pub arranged : q'.arranged ≡ Vec.retain (stays ids) q.arranged
  pub repeat : q'.repeat ≡ q.repeat
  pub shuffle : q'.shuffle ≡ q.shuffle

order_of-retained :
    (keep : QueueEntry → Bool) (s : Option (List QueueEntry)) (arranged : List QueueEntry)
    → unwrap_or (retain_shuffled keep s) (Vec.retain keep arranged)
      ≡ Vec.retain keep (unwrap_or s arranged)
order_of-retained keep none arranged = refl
order_of-retained keep (some order) arranged = refl

unchanged :
    (ids : List ℕ) (xs : List QueueEntry)
    → count_if (λ e. contains ids e.id) xs ≡ 0
    → xs ≡ Vec.retain (stays ids) xs
unchanged ids xs h = sym (retain_same (stays ids) xs (All-of_count (λ e. contains ids e.id) xs h))

-- `remove_entries` takes out the entries with the given ids and no others: the played part, the
-- part from the current entry on and the arranged order each keep the rest in order, so the
-- current entry stays current unless it goes, and then the next one that stays becomes current.
pub remove_entries-Without :
    (q : PlaybackQueue) (ids : List ℕ) → IsValid q → Without ids q (remove_entries q ids).1
unfolding remove_entries
remove_entries-Without q ids v =
    if-cases (λ (s : Bool × PlaybackQueue). Without ids q s.1)
      (not (Vec.any (λ e. contains ids e.id) (order_of q))) _ _
      (λ nothing. same (any-count _ (order_of q) (ground arith))) (λ _. changed)
  where
    gone : QueueEntry → Bool
    gone e = contains ids e.id

    same : count_if gone (order_of q) ≡ 0 → Without ids q q
    same h = record {
      played =
          unchanged ids (take q.current (order_of q))
            (omega (arith, count_if-take-drop gone q.current (order_of q)));
      rest =
          unchanged ids (from_current q)
            (omega (arith, count_if-take-drop gone q.current (order_of q)));
      arranged = unchanged ids q.arranged (omega (arith, v.same gone));
      repeat = refl;
      shuffle = refl;
    }

    place :
        q.current - length (Vec.retain gone (head (order_of q) q.current))
        ≡ count_if (stays ids) (take q.current (order_of q))
    place = kept_before gone (order_of q) q.current (omega (arith, order-length v, v.within))

    changed : Without ids q (record q {
      arranged = Vec.retain (stays ids) q.arranged;
      shuffled = retain_shuffled (stays ids) q.shuffled;
      current = q.current - length (Vec.retain gone (head (order_of q) q.current));
    })
    changed = record {
      played =
          rw (place, order_of-retained (stays ids) q.shuffled q.arranged)
            (retain-take (stays ids) q.current (order_of q));
      rest =
          rw (place, order_of-retained (stays ids) q.shuffled q.arranged)
            (retain-drop (stays ids) q.current (order_of q));
      arranged = refl;
      repeat = refl;
      shuffle = refl;
    }

-- What `remove_upcoming` leaves: one upcoming entry less in both orders.
pub record Dropped (x : QueueEntry) (q q' : PlaybackQueue) : Type 0 where
  pub start : SameStart q q'
  pub after : upcoming q' ≡ Vec.retain (other_id x) (upcoming q)
  pub arranged : q'.arranged ≡ Vec.retain (other_id x) q.arranged

shortened :
    (q q' : PlaybackQueue) (i : ℕ) (x : QueueEntry)
    → IsValid q
    → get_elem? (order_of q) i ≡ some x
    → q.current < i
    → i < length (order_of q)
    → q'.current ≡ q.current
    → order_of q' ≡ Vec.retain (other_id x) (order_of q)
    → q'.arranged ≡ Vec.retain (other_id x) q.arranged
    → Dropped x q q'
shortened q q' i x v e after inside c o a = record {
  start =
      SameStart-of_take q q' (omega (arith, order-length v, v.within)) c (omega (arith, long))
        (rw o (take-retain (other_id x) (q.current + 1) (order_of q) before fits));
  after =
      upcoming-eq-drop q'
      ∙ rw (c, o) (drop-retain (other_id x) (q.current + 1) (order_of q) before fits)
      ∙ ap (Vec.retain (other_id x)) (sym (upcoming-eq-drop q));
  arranged = a;
}
  where
    fits : q.current + 1 ≤ length (order_of q)
    fits = omega arith

    before : All (λ y. other_id x y ≡ true) (take (q.current + 1) (order_of q))
    before =
        subst (All (λ y. other_id x y ≡ true))
          (take-take (q.current + 1) i (order_of q) (omega arith))
          (All-take _ (q.current + 1) (take i (order_of q))
            (others_before (order_of q) i x (order-Unique v) e))

    long : q'.current ≤ length (order_of q')
    long =
        rw (c, o)
          (omega (
            arith,
            ap length (take-retain (other_id x) (q.current + 1) (order_of q) before fits),
            length-take (q.current + 1) (order_of q),
            length-take (q.current + 1) (Vec.retain (other_id x) (order_of q)),
          ))

drop_at :
    (q : PlaybackQueue) (s : Option (List QueueEntry)) (i : ℕ) (x : QueueEntry)
    → q.shuffled ≡ s
    → IsValid q
    → get_elem? (unwrap_or s q.arranged) i ≡ some x
    → q.current < i
    → i < length (unwrap_or s q.arranged)
    → (q' : PlaybackQueue) × (remove_at q i ≡ ok tt q') × Dropped x q q'
drop_at q none i x e v at after inside = (
  record q { arranged = without_at i q.arranged },
  remove_at-plain q i x e at,
  shortened q (record q { arranged = without_at i q.arranged }) i x v (rw e at) after (rw e inside)
      refl (rw e gone) gone,
)
  where
    gone : without_at i q.arranged ≡ Vec.retain (other_id x) q.arranged
    gone = sym (retain-without_at q.arranged i x v.unique at)
drop_at q (some order) i x e v at after inside = (
  record q { shuffled = some (without_at i order); arranged = Vec.retain (other_id x) q.arranged },
  remove_at-shuffled q order i x e at,
  shortened q
      (record q {
        shuffled = some (without_at i order);
        arranged = Vec.retain (other_id x) q.arranged;
      })
      i x v (rw e at) after (rw e inside) refl
      (rw e (sym (retain-without_at order i x (rw e at (order-Unique v)) at))) refl,
)

-- `remove_upcoming` of an entry that is upcoming succeeds, and takes that entry out of both orders
-- and nothing else.
pub remove_upcoming-Dropped :
    (q : PlaybackQueue) (i : ℕ) (x : QueueEntry)
    → IsValid q
    → get_elem? (upcoming q) i ≡ some x
    → (q' : PlaybackQueue) × (remove_upcoming q x.id ≡ ok tt q') × Dropped x q q'
unfolding remove_upcoming
remove_upcoming-Dropped q i x v e =
    let (at, inside, found) = upcoming_at q i x v e in
    rw (found, remove_upcoming)
      (drop_at q q.shuffled (q.current + 1 + i) x refl v at (omega arith) inside)

-- An id of no upcoming entry is refused, and the queue stays as it is: what has been played, the
-- current entry and unknown ids cannot be removed or moved.
pub edits_refused :
    (q : PlaybackQueue) (id to : ℕ)
    → count_if (has_id id) (upcoming q) ≡ 0
    → (remove_upcoming q id ≡ err item_not_upcoming q)
      × (move_upcoming q id to ≡ err item_not_upcoming q)
unfolding remove_upcoming move_upcoming
edits_refused q id to h = elim (Option-cases (upcoming_index q id)) [
  | inl e ↦ (rw (e, remove_upcoming), rw (e, move_upcoming))
  | inr (i, e) ↦
      let (x, at, same, after, inside) = upcoming_index-found q id i e in
      absurd (
        omega (
          arith,
          h,
          ap (count_if (has_id id)) (upcoming-eq-drop q),
          count_if-pos (has_id id) (drop (q.current + 1) (order_of q)) (i - (q.current + 1)) x
              (get_elem?-drop (q.current + 1) (i - (q.current + 1)) (order_of q)
                ∙ rw (sub_back i (q.current + 1) (omega arith)) at)
              ((==_iff x.id id).1 same),
        ))
]

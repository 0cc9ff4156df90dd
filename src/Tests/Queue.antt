-- ===== src/Tests/Queue.antt =====
-- A queue of three tracks, plain and shuffled, and what the theorems say of it.
use nice_audio_player.Prelude.{
  ◌⊎◌, ◌≤◌, ◌≡◌, ◌==◌, not, if◌then◌else◌, ◌∷◌, ◌++◌, ℕ, true, some, refl, none, false,
  count_if-append, arith, [], SameItems, List,
}
use nice_audio_player.Vec
use nice_audio_player.Playback.Queue.State.{
  invalid_start, all, natural, user_next, user_previous, ok, err, QueueEntry, PlaybackQueue, new,
  upcoming, current_entry, can_go_next, can_go_previous, item_not_upcoming,
}
use nice_audio_player.Playback.Queue.Rand.{Rand}
use nice_audio_player.Playback.Queue.Commands
use nice_audio_player.Playback.Queue.Order.{advance, replace, restore, set_shuffle, peek_natural}
use nice_audio_player.Playback.Queue.Edit.{remove_entries, remove_upcoming}
use nice_audio_player.Playback.Queue.Move.{enqueue, move_upcoming, jump_to}
use nice_audio_player.Playback.Queue.Invariant.{IsValid, Leaves}
use nice_audio_player.Playback.Queue.Effects.Edits.{
  Without, remove_entries-Without, Dropped, remove_upcoming-Dropped, edits_refused,
}
use nice_audio_player.Playback.Queue.Effects.Moves.{
  MovedTo, place_of, move_upcoming-MovedTo, jump_to-exact,
}
use nice_audio_player.Playback.Queue.Effects.Additions.{Added, enqueue-Added}
use nice_audio_player.Playback.Queue.Effects.Shuffle.{shuffle_round_trip, set_shuffle-off_keeps}
use nice_audio_player.Playback.Queue.Effects.Restore.{
  PutBack, restore-PutBack, Replaced, replace-exact,
}
use nice_audio_player.Playback.Queue.Effects.Advance.{peek_natural-advance}
use nice_audio_player.Playback.Queue.Effects.Steps.{
  MovesOn, user_next-MovesOn, user_previous-MovesOn,
}
use nice_audio_player.Playback.Queue.Invariant.Shuffles.{at-IsValid, Good}

-- A generator that rotates what it shuffles and draws the least number.
abbrev rotate : List QueueEntry → List QueueEntry
rotate [] = []
rotate (x ∷ xs) = xs ++ (x ∷ [])

rotate-SameItems : (xs : List QueueEntry) → SameItems (rotate xs) xs
rotate-SameItems [] p = refl
rotate-SameItems (x ∷ xs) p = omega (arith, count_if-append p xs (x ∷ []))

abbrev rotating : Rand
rotating = record {
  Gen = Unit;
  shuffle_items = λ xs g. (rotate xs, g);
  random_range = λ lo hi g. (lo, g);
  shuffle_same = λ xs g. rotate-SameItems xs;
  range_bounds = λ lo hi g h. (omega arith, h);
}

abbrev entry : ℕ → ℕ → QueueEntry
entry id track_id = record { id = id; track_id = track_id }

abbrev empty_queue : PlaybackQueue
empty_queue = record {
  arranged = [];
  shuffled = none;
  current = 0;
  repeat = all;
  shuffle = false;
  next_item_id = 1;
}

abbrev three : PlaybackQueue
three = record {
  arranged = entry 1 10 ∷ (entry 2 11 ∷ (entry 3 12 ∷ []));
  shuffled = none;
  current = 1;
  repeat = all;
  shuffle = false;
  next_item_id = 4;
}

abbrev three_shuffled : PlaybackQueue
three_shuffled = record three {
  shuffled = some (entry 2 11 ∷ (entry 3 12 ∷ (entry 1 10 ∷ [])));
  shuffle = true;
  current = 0;
}

started_three : Commands.Reachable rotating three
unfolding new Commands.apply replace
started_three =
    Commands.stepped (Commands.replaces (10 ∷ (11 ∷ (12 ∷ []))) 1) tt (Commands.started all false)
      (omega arith) Commands.by_ok

shuffled_three : Commands.Reachable rotating three_shuffled
unfolding Commands.apply set_shuffle Vec.remove
shuffled_three = Commands.stepped (Commands.sets_shuffle true) tt started_three tt Commands.by_ok

three-IsValid : IsValid three
three-IsValid = Commands.Reachable-IsValid rotating started_three

three_shuffled-IsValid : IsValid three_shuffled
three_shuffled-IsValid = Commands.Reachable-IsValid rotating shuffled_three

-- The theorems at these queues.
apply-IsValid_example :
    Leaves
      (Good rotating)
      (Commands.apply rotating (Commands.enqueues (20 ∷ []) true) three_shuffled tt)
apply-IsValid_example =
    Commands.apply-IsValid rotating (Commands.enqueues (20 ∷ []) true) three_shuffled tt
      three_shuffled-IsValid (omega arith, λ _. omega arith)

Reachable-IsValid_example : IsValid three
Reachable-IsValid_example = Commands.Reachable-IsValid rotating started_three

enqueue-Added_example :
    (q' : PlaybackQueue) × (enqueue three_shuffled (20 ∷ (21 ∷ [])) true ≡ ok tt q')
    × Added (20 ∷ (21 ∷ [])) true three_shuffled q'
enqueue-Added_example =
    enqueue-Added three_shuffled (20 ∷ (21 ∷ [])) true three_shuffled-IsValid (omega arith)
      (omega arith)

move_upcoming-MovedTo_example :
    (q' : PlaybackQueue) × (move_upcoming three_shuffled 3 9
      ≡ ok (not (place_of three_shuffled 9 == 0)) q')
    × MovedTo 0 (place_of three_shuffled 9) (entry 3 12) three_shuffled q'
unfolding upcoming
move_upcoming-MovedTo_example =
    move_upcoming-MovedTo three_shuffled 0 9 (entry 3 12) three_shuffled-IsValid (omega arith) refl

remove_entries-Without_example :
    Without (2 ∷ []) three_shuffled (remove_entries three_shuffled (2 ∷ [])).1
remove_entries-Without_example =
    remove_entries-Without three_shuffled (2 ∷ []) three_shuffled-IsValid

remove_upcoming-Dropped_example :
    (q' : PlaybackQueue) × (remove_upcoming three_shuffled 1 ≡ ok tt q')
    × Dropped (entry 1 10) three_shuffled q'
unfolding upcoming
remove_upcoming-Dropped_example =
    remove_upcoming-Dropped three_shuffled 1 (entry 1 10) three_shuffled-IsValid refl

abbrev last_shuffled : PlaybackQueue
last_shuffled = record three_shuffled { current = 2 }

last_shuffled-IsValid : IsValid last_shuffled
last_shuffled-IsValid = at-IsValid three_shuffled 2 three_shuffled-IsValid (omega arith)

user_next-MovesOn_example :
    MovesOn rotating (entry 1 10) (advance rotating last_shuffled user_next tt)
unfolding current_entry can_go_next
user_next-MovesOn_example =
    user_next-MovesOn rotating last_shuffled (entry 1 10) tt last_shuffled-IsValid refl refl

user_previous-MovesOn_example :
    MovesOn rotating (entry 2 11) (advance rotating three_shuffled user_previous tt)
unfolding current_entry can_go_previous
user_previous-MovesOn_example =
    user_previous-MovesOn rotating three_shuffled (entry 2 11) tt three_shuffled-IsValid refl refl

peek_natural-advance_example :
    (q' : PlaybackQueue) × (advance rotating three natural tt ≡ ok (some (entry 3 12)) (q', tt))
    × (current_entry q' ≡ some (entry 3 12))
unfolding peek_natural
peek_natural-advance_example = peek_natural-advance rotating three (entry 3 12) tt refl

shuffle_round_trip_example :
    (q' : PlaybackQueue) × (g' : Unit) × (set_shuffle rotating three true tt ≡ ok true (q', g'))
    × (current_entry q' ≡ some (entry 2 11))
    × (q'.current ≡ 0)
    × (q'.arranged ≡ three.arranged)
    × ((h : Unit) → set_shuffle rotating q' false h ≡ ok true (three, h))
unfolding current_entry
shuffle_round_trip_example =
    shuffle_round_trip rotating three (entry 2 11) tt three-IsValid refl refl

set_shuffle-off_keeps_example :
    (q' : PlaybackQueue) × (set_shuffle rotating last_shuffled false tt ≡ ok true (q', tt))
    × (current_entry q' ≡ some (entry 1 10))
    × (q'.arranged ≡ three.arranged)
    × (q'.shuffled ≡ none)
unfolding current_entry
set_shuffle-off_keeps_example =
    set_shuffle-off_keeps rotating last_shuffled (entry 1 10) tt last_shuffled-IsValid refl refl

replace-exact_example :
    ((3 ≤ 2)
      × (replace rotating three (30 ∷ (31 ∷ (32 ∷ []))) 2 tt ≡ err invalid_start (three, tt)))
    ⊎ ((q' : PlaybackQueue) × (g' : Unit) × (replace rotating three (30 ∷ (31 ∷ (32 ∷ []))) 2 tt
          ≡ ok tt (q', g'))
        × Replaced rotating (30 ∷ (31 ∷ (32 ∷ []))) 2 three q')
replace-exact_example = replace-exact rotating three (30 ∷ (31 ∷ (32 ∷ []))) 2 tt (omega arith)

restore-PutBack_example :
    (q' : PlaybackQueue) × (g' : Unit) × (restore rotating three last_shuffled tt ≡ ok tt (q', g'))
    × PutBack rotating (entry 1 10) three last_shuffled q'
unfolding current_entry
restore-PutBack_example =
    restore-PutBack rotating three last_shuffled (entry 1 10) tt last_shuffled-IsValid refl

jump_to-exact_example : jump_to three_shuffled 1 ≡ (
    if 2 == 0
    then err item_not_upcoming three_shuffled
    else ok tt (record three_shuffled { current = 2 }))
jump_to-exact_example = jump_to-exact three_shuffled 2 (entry 1 10) three_shuffled-IsValid refl

edits_refused_example :
    (remove_upcoming three_shuffled 2 ≡ err item_not_upcoming three_shuffled)
    × (move_upcoming three_shuffled 2 0 ≡ err item_not_upcoming three_shuffled)
unfolding upcoming
edits_refused_example = edits_refused three_shuffled 2 0 refl

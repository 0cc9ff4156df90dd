-- ===== src/Playback/Worker/Balance/Cutting.antt =====
-- The rows of a snapshot are as many as the entries that it shows, so that they can be cut
-- (backend/src/audio/playback/snapshot.rs, resolver.rs).
use nice_audio_player.Prelude.{
  ◌≡◌, ◌∷◌, ◌++◌, ℕ, true, some, none, refl, map, length, length-append, arith, [], Option, List,
}
use nice_audio_player.BTree
use nice_audio_player.Slices.{head}
use nice_audio_player.Playback.Queue.State.{QueueEntry, current_entry, upcoming}
use nice_audio_player.Playback.Worker.Outside.{Answered, Outside, Words, PlayableTrack, good, bad}
use nice_audio_player.Playback.Worker.Types.{PlaybackServiceError}
use nice_audio_player.Playback.Worker.Tracks.{W, fill, resolve, upcoming_in_snapshot}
use nice_audio_player.Playback.Worker.Rows.{
  all_none, as_list, queue_items, rows_of, shown_history, shown_rows, splits,
}

pub length-map : {A B : Type 0} (f : A → B) (xs : List A) → length (map f xs) ≡ length xs
length-map f [] = refl
length-map f (x ∷ xs) = omega (arith, length-map f xs)

length-all_none : {A : Type 0} (B : Type 0) (xs : List A) → length (all_none {B = B} xs) ≡ length xs
length-all_none B [] = refl
length-all_none B (x ∷ xs) = omega (arith, length-all_none B xs)

-- A list that is as long as three lists in a row is cut behind the first and behind the second.
length-splits :
    (before now later : List QueueEntry) (rows : ℕ)
    → rows ≡ length (before ++ (now ++ later))
    → splits before now rows ≡ true
unfolding splits
length-splits before now later rows e =
    ground (arith, e, length-append before (now ++ later), length-append now later)

module _ {words : Words} where
  length-queue_items :
      (entries : List QueueEntry) (tracks : List (Option (PlayableTrack words)))
      → length tracks ≡ length entries
      → length (queue_items entries tracks) ≡ length entries
  unfolding queue_items
  length-queue_items [] tracks e = refl
  length-queue_items (x ∷ entries) [] e = absurd (omega (arith, e))
  length-queue_items (x ∷ entries) (none ∷ tracks) e =
      omega (arith, length-queue_items entries tracks (omega (arith, e)))
  length-queue_items (x ∷ entries) (some t ∷ tracks) e =
      omega (arith, length-queue_items entries tracks (omega (arith, e)))

  -- What is read gives as many tracks as were asked for.
  abbrev Complete :
      ℕ → Answered words (List (Option (PlayableTrack words))) PlaybackServiceError → Type 0
  Complete n (bad e) = Unit
  Complete n (good tracks) = length tracks ≡ n

  rows_of-length :
      (entries : List QueueEntry)
      (answer : Answered words (List (Option (PlayableTrack words))) PlaybackServiceError)
      → Complete (length entries) answer
      → length (rows_of entries answer) ≡ length entries
  unfolding rows_of
  rows_of-length entries (bad e) h = length-all_none _ entries
  rows_of-length entries (good tracks) h = length-queue_items entries tracks h

module _ {words : Words} (o : Outside words) where
  length-fill :
      (found read : List (Option (PlayableTrack words))) → length (fill o found read) ≡ length found
  unfolding fill
  length-fill [] [] = refl
  length-fill [] (t ∷ read) = refl
  length-fill (none ∷ found) [] = refl
  length-fill (none ∷ found) (t ∷ read) = omega (arith, length-fill found read)
  length-fill (some t ∷ found) [] = omega (arith, length-fill found [])
  length-fill (some t ∷ found) (r ∷ read) = omega (arith, length-fill found (r ∷ read))

  resolve-Complete : (ids : List ℕ) (w : W o) → Complete (length ids) (resolve o ids w).0
  unfolding resolve
  resolve-Complete ids w =
      let found = map (λ id. BTree.get id w.cache) ids in
      let asked = length-map (λ id. BTree.get id w.cache) ids in
      grind (arith, asked, length-fill found)

  pub rows-split :
      (w : W o)
      → (let q = w.queue in
          let ids = map (λ e. e.track_id) (shown_rows q) in
          splits
            (shown_history q)
            (as_list (current_entry q))
            (length (rows_of (shown_rows q) (resolve o ids w).0))
          ≡ true)
  unfolding shown_rows
  rows-split w =
      let q = w.queue in
      let ids = map (λ e. e.track_id) (shown_rows q) in
      let asked = length-map (λ e. e.track_id) (shown_rows q) in
      let read : Complete (length (shown_rows q)) (resolve o ids w).0 =
        rw (← asked) (resolve-Complete ids w) in
      length-splits (shown_history q) (as_list (current_entry q))
        (head (upcoming q) upcoming_in_snapshot) _
        (rows_of-length (shown_rows q) (resolve o ids w).0 read)

-- ===== src/Playback/Worker/Tracks.antt =====
-- Reading tracks, and the queue without those that the library no longer has
-- (backend/src/audio/playback/resolver.rs, worker/start.rs, item.rs).
use nice_audio_player.Prelude.{
  ◌||◌, ◌-◌, ◌++◌, unwrap_or, true, not, false, Bool, ◌∷◌, ◌+◌, ℕ, zero, suc, some, none, map, ltb,
  length, if◌then◌else◌, [], Option, List,
}
use nice_audio_player.BTree
use nice_audio_player.Slices.{head, tail_from}
use nice_audio_player.Playback.Queue.State.{
  PlaybackQueue, QueueEntry, current_entry, history, upcoming, len,
}
use nice_audio_player.Playback.Queue.Edit.{remove_entries}
use nice_audio_player.Playback.Worker.Types.{PlaybackServiceError}
use nice_audio_player.Playback.Worker.Outside.{Words, Outside, PlayableTrack, Answered, good, bad}
use nice_audio_player.Playback.Worker.State.{
  Worker, PlayableItem, PlaybackItem, Event, Answer, map_option, answered,
}

abbrev pub cache_limit : ℕ
cache_limit = 2048

abbrev pub upcoming_in_snapshot : ℕ
upcoming_in_snapshot = 200

abbrev pub history_in_snapshot : ℕ
history_in_snapshot = 50

module _ {words : Words} (o : Outside words) where
  abbrev pub W : Type 0
  W = Worker o

  abbrev pub emit : Event words → W → W
  emit e w = record w { log = e ∷ w.log }

  -- `respond`: a reply that somebody waits for is answered.
  unfoldable pub respond : Option ℕ → Answer words → W → W
  respond none a w = w
  respond (some reply) a w = emit (answered reply a) w

  -- The ids that the cache does not have.
  unfoldable pub uncached : List ℕ → List (Option (PlayableTrack words)) → List ℕ
  uncached (id ∷ ids) (none ∷ found) = id ∷ uncached ids found
  uncached (id ∷ ids) (some t ∷ found) = uncached ids found
  uncached _ _ = []

  -- The tracks that were read, in the places that the cache left open.
  unfoldable pub fill :
      List (Option (PlayableTrack words))
      → List (Option (PlayableTrack words))
      → List (Option (PlayableTrack words))
  fill (none ∷ found) (t ∷ read) = t ∷ fill found read
  fill (some t ∷ found) read = some t ∷ fill found read
  fill found [] = found
  fill [] read = []

  -- A track that was read for one of the ids is cached under its own id.
  unfoldable pub remember :
      List ℕ
      → List (Option (PlayableTrack words))
      → List (ℕ × PlayableTrack words)
      → List (ℕ × PlayableTrack words)
  remember (id ∷ ids) (none ∷ read) cache = remember ids read cache
  remember (id ∷ ids) (some t ∷ read) cache = remember ids read (BTree.insert t.id t cache)
  remember _ _ cache = cache

  unfoldable pub resolve :
      List ℕ → W → Answered words (List (Option (PlayableTrack words))) PlaybackServiceError × W
  unfolding uncached fill remember BTree.get
  resolve ids w =
      let found = map (λ id. BTree.get id w.cache) ids in
      elim (uncached ids found) [
        | [] ↦ (good found, w)
        | id ∷ more ↦
            let (answer, world) = Outside.read_tracks o (id ∷ more) w.world in
            let w₁ = record w { world = world } in
            elim answer [
              | bad e ↦ (bad e, w₁)
              | good read ↦
                  let room =
                    if ltb cache_limit (length w.cache + length read) then [] else w.cache in
                  (good (fill found read), record w₁ { cache = remember (id ∷ more) read room })
            ]
      ]

  abbrev last_of : {A : Type 0} → List (Option A) → Option A
  last_of [] = none
  last_of (x ∷ []) = x
  last_of (x ∷ y ∷ ys) = last_of (y ∷ ys)

  unfoldable pub resolve_one :
      ℕ → W → Answered words (Option (PlayableTrack words)) PlaybackServiceError × W
  unfolding resolve
  resolve_one id w =
      let (answer, w₁) = resolve (id ∷ []) w in
      (elim answer [ bad e ↦ bad e | good tracks ↦ good (last_of tracks) ], w₁)

  unfoldable pub forget : W → W
  forget w = record w { cache = [] }

  abbrev pub playable : QueueEntry → PlayableTrack words → PlayableItem words
  playable entry track = record { queue_item_id = entry.id; track = track }

  abbrev pub to_playback_item : PlayableItem words → PlaybackItem words
  to_playback_item item = record { queue_item_id = item.queue_item_id; track = item.track.track }

  unfoldable pub item_of : QueueEntry → W → Option (PlayableItem words) × W
  unfolding resolve_one
  item_of entry w =
      let (answer, w₁) = resolve_one entry.track_id w in
      (elim answer [ bad e ↦ none | good t ↦ map_option (playable entry) t ], w₁)

  -- The loop of `resolve_current`, at most `fuel` times round.
  unfoldable pub resolve_loop :
      ℕ → W → Option (Answered words (Option (PlayableItem words)) PlaybackServiceError) × W
  unfolding current_entry resolve_one remove_entries
  resolve_loop zero w = (none, w)
  resolve_loop (suc fuel) w = elim (current_entry w.queue) [
    | none ↦ (some (good none), w)
    | some entry ↦
        let (answer, w₁) = resolve_one entry.track_id w in
        let again =
          resolve_loop fuel (record w₁ { queue = (remove_entries w₁.queue (entry.id ∷ [])).1 }) in
        elim answer [
          | bad e ↦ (some (bad e), w₁)
          | good none ↦ again
          | good (some track) ↦ (some (good (some (playable entry track))), w₁)
        ]
  ]

  -- `resolve_current`: a turn of the loop takes an entry out of the queue, so this is enough fuel.
  unfoldable pub resolve_current :
      W → Answered words (Option (PlayableItem words)) PlaybackServiceError × W
  unfolding resolve_loop len
  resolve_current w =
      let (answer, w₁) = resolve_loop (suc (len w.queue)) w in (unwrap_or answer (good none), w₁)

  -- The ids of the entries whose track is gone.
  unfoldable pub gone_ids : List QueueEntry → List (Option (PlayableTrack words)) → List ℕ
  gone_ids (e ∷ es) (none ∷ tracks) = e.id ∷ gone_ids es tracks
  gone_ids (e ∷ es) (some t ∷ tracks) = gone_ids es tracks
  gone_ids _ _ = []

  unfoldable pub shown_entries : PlaybackQueue → List QueueEntry
  unfolding history upcoming
  shown_entries q =
      tail_from (history q) (length (history q) - history_in_snapshot)
      ++ head (upcoming q) upcoming_in_snapshot

  abbrev no_ids : List ℕ → Bool
  no_ids [] = true
  no_ids (i ∷ more) = false

  -- The loop of `prune_unavailable`, at most `fuel` times round.
  unfoldable pub prune_loop : ℕ → W → W
  unfolding shown_entries resolve gone_ids remove_entries
  prune_loop zero w = w
  prune_loop (suc fuel) w =
      let shown = shown_entries w.queue in
      let (answer, w₁) = resolve (map (λ e. e.track_id) shown) w in
      elim answer [
        | bad e ↦ w₁
        | good tracks ↦
            let gone = gone_ids shown tracks in
            let (removed, queue) = remove_entries w₁.queue gone in
            let again = prune_loop fuel (record w₁ { queue = queue }) in
            if no_ids gone || not removed
            then record w₁ { queue = if no_ids gone then w₁.queue else queue }
            else again
      ]

  unfoldable pub prune_unavailable : W → W
  unfolding prune_loop len
  prune_unavailable w = prune_loop (suc (len w.queue)) w

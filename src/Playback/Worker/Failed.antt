-- ===== src/Playback/Worker/Failed.antt =====
-- A start that fails, and moving on to the next item
-- (backend/src/audio/playback/worker/start.rs, failure.rs).
use nice_audio_player.Playback.Queue.Order.{advance}
use nice_audio_player.Playback.Worker.Tracks.{
  to_playback_item, emit, item_of, resolve_current, respond, W,
}
use nice_audio_player.Playback.Worker.Transport.{set_transport, discard_transport}
use nice_audio_player.Playback.Worker.Publish.{publish, publish_queue, publish_state}
use nice_audio_player.Playback.Worker.Types.{
  source_worker, item_failure, by_auto, SessionStartedBy, is_item_scope, StartFailure,
  PlaybackFailureCode, PlaybackServiceError, service_error, scope,
}
use nice_audio_player.Playback.Queue.State.{
  panicked, can_go_next, ok, user_next, err, QueueEntry, Outcome, len, current_entry, next_id,
  PlaybackQueue,
}
use nice_audio_player.Playback.Worker.State.{
  load_spawned, map_option, loading_source, track_skipped, loading, refused, failed, PlayableItem,
  loaded, StartRequest, Transport,
}
use nice_audio_player.Playback.Worker.Outside.{good, Answered, Outside, Words}
use nice_audio_player.Prelude.{
  ◌^◌, ◌+◌, ◌&&◌, ◌%◌, ℕ, true, some, not, none, ltb, leb, is_some, if◌then◌else◌, false, Option,
  Bool,
}
use nice_audio_player.Playback.Queue.Rand.{Rand}

module _ {words : Words} (o : Outside words) where
  -- A panic ends the worker: nothing that the model does after it stands for anything.
  abbrev pub panic : W o → W o
  panic w = record w { panicked = true }

  abbrev pub Step : Type 0 → Type 0
  Step A = Outcome (PlaybackQueue × Rand.Gen (Outside.rand o)) A

  -- The queue and the generator that a step of the queue leaves.
  abbrev pub settle : PlaybackQueue × Rand.Gen (Outside.rand o) → W o → W o
  settle s w = record w { queue = s.0; gen = s.1 }

  unfoldable pub new_start :
      PlayableItem words → SessionStartedBy → Option ℕ → Bool → W o → StartRequest words × W o
  unfolding next_id
  new_start item started_by responder start_paused w = (
    record {
      id = w.ids;
      item = item;
      started_by = started_by;
      responder = responder;
      start_paused = start_paused;
      resume_at_ms = none;
      selection = none;
    },
    record w { ids = next_id w.ids },
  )

  unfoldable pub will_skip : W o → Bool
  unfolding len can_go_next
  will_skip w = ltb (w.skipped_in_a_row + 1) (len w.queue) && can_go_next w.queue

  abbrev pub Resolved : Type 0
  Resolved = Answered words (Option (PlayableItem words)) PlaybackServiceError

  -- The item that the advanced queue points at, told to listeners.
  unfoldable pub skipped_to : Resolved → W o → Option (PlayableItem words) × W o
  unfolding publish_queue
  skipped_to (good (some item)) w = (some item, publish_queue o w)
  skipped_to _ w = (none, w)

  unfoldable pub skip_to : Step (Option QueueEntry) → W o → Option (PlayableItem words) × W o
  unfolding resolve_current skipped_to
  skip_to panicked w = (none, panic w)
  skip_to (err e s) w = (none, settle s w)
  skip_to (ok none s) w = (none, settle s w)
  skip_to (ok (some entry) s) w =
      let (answer, w₁) = resolve_current o (settle s w) in skipped_to answer w₁

  unfoldable pub next_after_item_failure : W o → Option (PlayableItem words) × W o
  unfolding len advance skip_to
  next_after_item_failure w =
      let w₁ = record w { skipped_in_a_row = w.skipped_in_a_row + 1 } in
      if leb (len w₁.queue) w₁.skipped_in_a_row
      then (none, w₁)
      else skip_to (advance (Outside.rand o) w₁.queue user_next w₁.gen) w₁

  unfoldable pub occur_track_skipped_of : Option QueueEntry → PlaybackFailureCode → W o → W o
  unfolding item_of
  occur_track_skipped_of none code w = emit o (track_skipped none code) w
  occur_track_skipped_of (some entry) code w =
      let (item, w₁) = item_of o entry w in
      emit o (track_skipped (map_option (to_playback_item o) item) code) w₁

  unfoldable pub occur_track_skipped : PlaybackFailureCode → W o → W o
  unfolding occur_track_skipped_of current_entry
  occur_track_skipped code w = occur_track_skipped_of (current_entry w.queue) code w

  -- A failure that listeners see, before the queue moves.
  unfoldable pub show_failure : Option ℕ → PlaybackFailureCode → Bool → W o → W o
  unfolding occur_track_skipped publish_state
  show_failure id code skipping w =
      let w₁ = publish o (set_transport o (failed id code skipping) w) in
      if skipping then occur_track_skipped code w₁ else w₁

  unfoldable pub skips : StartRequest words → StartFailure → Bool
  unfolding scope
  skips request failure = is_item_scope (scope failure.phase) && not (is_some request.selection)

  -- The start of the next item, or the answer that there is none to try.
  unfoldable pub move_on :
      (StartRequest words → W o → W o)
      → Option ℕ
      → PlaybackServiceError
      → Option (PlayableItem words) × W o
      → W o
  unfolding new_start respond
  move_on restart responder e next = elim next.0 [
    | none ↦ respond o responder (refused e) next.1
    | some item ↦
        let (request, w) = new_start item by_auto responder false next.1 in restart request w
  ]

  -- `fail_start`, with `begin_start` as an argument: the two call each other.
  unfoldable pub fail_start_with :
      (StartRequest words → W o → W o) → StartRequest words → StartFailure → W o → W o
  unfolding skips will_skip show_failure next_after_item_failure move_on service_error
  fail_start_with restart request failure w =
      let skipping = skips request failure && will_skip w in
      let w₁ = show_failure (some request.id) failure.code skipping w in
      let e = service_error failure in
      if skips request failure
      then move_on restart request.responder e (next_after_item_failure w₁)
      else respond o request.responder (refused e) w₁

  unfoldable pub is_visible : Transport words → Bool
  is_visible (loaded l) = true
  is_visible (failed id code skipping) = true
  is_visible _ = false

  -- The thread that reads the file is there or not. Its failure is one of the output path, which
  -- starts no other item, so that `fail_start` does not come back to `begin_start`.
  unfoldable pub load_begun : StartRequest words → ℕ → Bool → W o → W o
  unfolding fail_start_with
  load_begun request load true w =
      set_transport o (loading request (loading_source load)) (emit o (load_spawned load) w)
  load_begun request load false w =
      fail_start_with (λ request₁ w₁. w₁) request (item_failure source_worker) w

  unfoldable pub spawn_start : StartRequest words → W o → W o
  unfolding load_begun
  spawn_start request w =
      let load = (w.source_load_ids + 1) % 2 ^ 64 in
      let (spawned, world) = Outside.spawn_load o request.item.track.file load w.world in
      load_begun request load spawned (record w { source_load_ids = load; world = world })

  unfoldable pub begin_start : StartRequest words → W o → W o
  unfolding is_visible discard_transport publish_state spawn_start
  begin_start request w =
      let w₁ = discard_transport o w in
      spawn_start request (if is_visible w.transport then publish o w₁ else w₁)

  unfoldable pub fail_start : StartRequest words → StartFailure → W o → W o
  unfolding fail_start_with begin_start
  fail_start = fail_start_with begin_start

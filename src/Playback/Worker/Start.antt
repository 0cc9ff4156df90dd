-- ===== src/Playback/Worker/Start.antt =====
-- Starting what the queue points at, and the end of a track
-- (backend/src/audio/playback/worker/start.rs, progress.rs).
use nice_audio_player.Playback.Queue.Edit.{clear}
use nice_audio_player.Playback.Worker.Transport.{
  shown, answer_with, set_transport, discard_transport,
}
use nice_audio_player.Playback.Worker.Types.{
  file_metadata_failed, file_open_failed, load_was_cancelled, track_unavailable, source_metadata,
  source_open, by_auto, common, item_failure, superseded, PipelineError, invalid_playback_state,
  CompressedSourceError, start_failure, SessionStartedBy,
}
use nice_audio_player.Playback.Worker.Publish.{publish, publish_state, publish_queue}
use nice_audio_player.Playback.Worker.Failed.{
  Resolved, settle, panic, begin_start, new_start, Step, fail_start,
}
use nice_audio_player.Playback.Worker.State.{
  pipeline_opened, prebuffering, loading, refused, StartRequest,
}
use nice_audio_player.Playback.Worker.Tracks.{emit, W, resolve_current, respond}
use nice_audio_player.Playback.Queue.Order.{advance}
use nice_audio_player.Playback.Queue.State.{panicked, ok, err, QueueEntry, natural, current_entry}
use nice_audio_player.Playback.Worker.Outside.{
  bad, good, Opened, PreparedOutputConfig, Answered, Outside, Words,
}
use nice_audio_player.Prelude.{
  ◌^◌, ◌+◌, ◌%◌, ℕ, unwrap_or, some, not, none, is_some, if◌then◌else◌, Option, Bool,
}

module _ {words : Words} (o : Outside words) where
  open words use {Source, extension}

  unfoldable pub start_resolved : Resolved o → Option ℕ → Bool → SessionStartedBy → W o → W o
  unfolding publish_queue new_start begin_start discard_transport clear publish_state respond
  start_resolved (good (some item)) responder start_paused started_by w =
      let (request, w₁) = new_start o item started_by responder start_paused (publish_queue o w) in
      begin_start o request w₁
  start_resolved (good none) responder start_paused started_by w =
      let w₁ = discard_transport o w in
      respond o responder (refused (common track_unavailable))
        (publish o (publish_queue o (record w₁ { queue = clear w₁.queue })))
  start_resolved (bad e) responder start_paused started_by w =
      respond o responder (refused e) (publish_queue o w)

  unfoldable pub start_current : Option ℕ → Bool → SessionStartedBy → W o → W o
  unfolding current_entry respond resolve_current start_resolved
  start_current responder start_paused started_by w =
      if not (is_some (current_entry w.queue))
      then respond o responder (refused invalid_playback_state) w
      else (let (answer, w₁) = resolve_current o w in
          start_resolved answer responder start_paused started_by w₁)

  unfoldable pub start_opened :
      StartRequest words
      → Source
      → ℕ
      → ℕ
      → Answered words (PreparedOutputConfig words × Opened words) PipelineError
      → W o
      → W o
  unfolding fail_start start_failure
  start_opened request source stream pipeline (good (config, opened)) w =
      set_transport o
        (loading request (
          prebuffering (record {
            source = source;
            output = record { id = stream; config = config };
            pipeline = pipeline;
            duration_ms = opened.duration_ms;
          })))
        (emit o (pipeline_opened pipeline) w)
  start_opened request source stream pipeline (bad e) w = fail_start o request (start_failure e) w

  unfoldable pub begin_prebuffering : StartRequest words → Source → W o → W o
  unfolding start_opened
  begin_prebuffering request source w =
      let selection = unwrap_or request.selection w.output_selection in
      let stream = (w.next_stream_id + 1) % 2 ^ 64 in
      let pipeline = (w.next_pipeline_id + 1) % 2 ^ 64 in
      let (answer, world) =
        Outside.open_start o source (extension request.item.track.file) pipeline selection stream
          w.world in
      start_opened request source stream pipeline answer
        (record w { next_stream_id = stream; next_pipeline_id = pipeline; world = world })

  -- What a source that was loaded for a start is for it.
  unfoldable pub start_loaded :
      StartRequest words → Answered words Source CompressedSourceError → W o → W o
  unfolding begin_prebuffering respond fail_start
  start_loaded request (good source) w = begin_prebuffering request source w
  start_loaded request (bad load_was_cancelled) w =
      respond o request.responder (refused superseded) w
  start_loaded request (bad file_open_failed) w = fail_start o request (item_failure source_open) w
  start_loaded request (bad file_metadata_failed) w =
      fail_start o request (item_failure source_metadata) w

  unfoldable pub after_track : Resolved o → Option ℕ → Bool → W o → W o
  unfolding publish_queue new_start begin_start discard_transport clear publish_state respond
  after_track (good (some item)) responder start_paused w =
      let w₁ = publish_queue o (record w { skipped_in_a_row = 0 }) in
      let (request, w₂) = new_start o item by_auto responder start_paused w₁ in
      begin_start o request w₂
  after_track (good none) responder start_paused w =
      let w₁ = discard_transport o w in
      answer_with o responder
        (shown o (publish_state o (publish_queue o (record w₁ { queue = clear w₁.queue }))))
  after_track (bad e) responder start_paused w =
      respond o responder (refused e) (publish o (publish_queue o (discard_transport o w)))

  unfoldable pub advanced : Step o (Option QueueEntry) → Option ℕ → Bool → W o → W o
  unfolding resolve_current after_track
  advanced panicked responder start_paused w = panic o w
  advanced (err e s) responder start_paused w =
      after_track (good none) responder start_paused (settle o s w)
  advanced (ok none s) responder start_paused w =
      after_track (good none) responder start_paused (settle o s w)
  advanced (ok (some entry) s) responder start_paused w =
      let (answer, w₁) = resolve_current o (settle o s w) in
      after_track answer responder start_paused w₁

  unfoldable pub advance_after_track : Option ℕ → Bool → W o → W o
  unfolding advance advanced
  advance_after_track responder start_paused w =
      advanced (advance (Outside.rand o) w.queue natural w.gen) responder start_paused w

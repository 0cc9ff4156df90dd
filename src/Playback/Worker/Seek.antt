-- ===== src/Playback/Worker/Seek.antt =====
-- Seeking inside a loaded playback, and the start that is ready
-- (backend/src/audio/playback/worker/seek.rs, start.rs; session.rs, `cancel_prefetch`).
use nice_audio_player.Playback.Queue.State.{saturating_add}
use nice_audio_player.Timebase.{millis_to_frame}
use nice_audio_player.Playback.Worker.Start.{advance_after_track}
use nice_audio_player.Playback.Worker.Transport.{
  shown, answer_with, set_transport, cancel_prefetched, drop_seek,
}
use nice_audio_player.Playback.Worker.Publish.{preferences_changed, publish_state}
use nice_audio_player.Playback.Worker.Types.{
  PipelineError, stream_start, invalid_playback_state, duration_unavailable, AudioOutputError,
  output_failure_code, superseded, AudioOutputSelection, seek_error, PlaybackServiceError,
}
use nice_audio_player.Playback.Worker.Tracks.{emit, respond, W}
use nice_audio_player.Playback.Worker.Failed.{fail_start}
use nice_audio_player.Playback.Worker.State.{
  Position, pipeline_opened, queue_switched, told_loaded, next_cleared, pipeline_cancelled,
  prebuffering, Prebuffering, idle, refused, StartRequest, ready, SeekInFlight, Prefetch, loading,
  loaded, Transport, Output, Loaded, from_start, PrefetchState,
}
use nice_audio_player.Playback.Worker.Outside.{bad, good, Opened, Answered, Outside, Words}
use nice_audio_player.Prelude.{◌^◌, ◌==◌, ◌-◌, ◌+◌, ◌%◌, ℕ, some, none, min, if◌then◌else◌, Option}

module _ {words : Words} (o : Outside words) where
  open words use {extension, output_rate}

  abbrev pub rate_of : Output words → ℕ
  rate_of out = output_rate out.config.processing_plan

  unfoldable pub cancel_seek_from : Transport words → PlaybackServiceError → W o → W o
  unfolding drop_seek
  cancel_seek_from (loaded l) e w =
      drop_seek o l.seek e (set_transport o (loaded (record l { seek = none })) w)
  cancel_seek_from _ e w = w

  unfoldable pub cancel_seek : PlaybackServiceError → W o → W o
  unfolding cancel_seek_from
  cancel_seek e w = cancel_seek_from w.transport e w

  unfoldable pub clear_next : PrefetchState words → W o → W o
  clear_next (ready next) w = emit o next_cleared w
  clear_next _ w = w

  unfoldable pub throw_away : Option (Prefetch words) → W o → W o
  unfolding clear_next cancel_prefetched
  throw_away none w = w
  throw_away (some prefetch) w = cancel_prefetched o prefetch.state (clear_next prefetch.state w)

  -- `Loaded::cancel_prefetch` of the loaded track.
  unfoldable pub cancel_prefetch : Loaded words → W o → W o
  unfolding throw_away
  cancel_prefetch l w =
      throw_away l.prefetch (set_transport o (loaded (record l { prefetch = none })) w)

  unfoldable pub cancel_prefetch_from : Transport words → W o → W o
  unfolding cancel_prefetch
  cancel_prefetch_from (loaded l) w = cancel_prefetch l w
  cancel_prefetch_from _ w = w

  -- The seek that prebuffers, never from past the end of the track.
  unfoldable pub sought : Loaded words → ℕ → Option ℕ → ℕ → Opened words → SeekInFlight words
  unfolding millis_to_frame
  sought l duration_ms responder pipeline opened =
      let total = millis_to_frame duration_ms (rate_of l.output) in
      record {
        pipeline = pipeline;
        output_base_frame = min opened.start_output_frame total;
        remaining_frames = total - opened.start_output_frame;
        duration_ms = duration_ms;
        responder = responder;
      }

  unfoldable pub seek_opened :
      Loaded words → ℕ → Option ℕ → ℕ → Answered words (Opened words) PipelineError → W o → W o
  unfolding sought respond seek_error
  seek_opened l duration_ms responder pipeline (good opened) w =
      set_transport o
        (loaded (record l { seek = some (sought l duration_ms responder pipeline opened) }))
        (emit o (pipeline_opened pipeline) w)
  seek_opened l duration_ms responder pipeline (bad e) w =
      respond o responder (refused (seek_error e)) w

  unfoldable pub seek_within : Loaded words → ℕ → ℕ → Option ℕ → W o → W o
  unfolding advance_after_track seek_opened
  seek_within l duration_ms requested_ms responder w =
      let target_ms = min requested_ms duration_ms in
      if target_ms == duration_ms
      then advance_after_track o responder l.paused w
      else (let pipeline = (w.next_pipeline_id + 1) % 2 ^ 64 in
          let (answer, world) =
            Outside.open_seek o l.source (extension l.item.track.file) pipeline l.output.config
              target_ms w.world in
          seek_opened l duration_ms responder pipeline answer
            (record w { next_pipeline_id = pipeline; world = world }))

  unfoldable pub seek_from : Transport words → ℕ → Option ℕ → W o → W o
  unfolding seek_within respond
  seek_from (loaded l) requested_ms responder w = elim l.position.duration_ms [
    | none ↦ respond o responder (refused duration_unavailable) w
    | some duration_ms ↦ seek_within l duration_ms requested_ms responder w
  ]
  seek_from _ requested_ms responder w = respond o responder (refused invalid_playback_state) w

  unfoldable pub begin_seek : ℕ → Option ℕ → W o → W o
  unfolding cancel_seek cancel_prefetch_from seek_from
  begin_seek requested_ms responder w =
      let w₁ = cancel_seek superseded w in
      let w₂ = cancel_prefetch_from w₁.transport w₁ in
      seek_from w₂.transport requested_ms responder w₂

  unfoldable pub seek_position : Loaded words → SeekInFlight words → ℕ → Position
  seek_position l seek now = record {
    sample_rate = rate_of l.output;
    duration_ms = some seek.duration_ms;
    frame = seek.output_base_frame;
    base_frame = seek.output_base_frame;
    remaining_frames = some seek.remaining_frames;
    last_publish = now;
  }

  -- The loaded track with the stream on the queue of the seek.
  unfoldable pub switched : Loaded words → SeekInFlight words → W o → W o
  unfolding seek_position
  switched l seek w =
      let (now, world) = Outside.clock o w.world in
      let w₁ = record w { world = world } in
      let l₁ = record l {
        pipeline = seek.pipeline;
        seek = none;
        position = seek_position l seek now;
        completion_time = none;
      } in
      let w₂ = emit o (pipeline_cancelled l.pipeline) (emit o (queue_switched seek.pipeline) w₁) in
      let w₃ = set_transport o (loaded l₁) w₂ in
      record w₃ { seek_revision = saturating_add w₃.seek_revision 1 }

  unfoldable pub switch_to : Loaded words → Option (SeekInFlight words) → W o → W o
  unfolding switched publish_state respond
  switch_to l none w = w
  switch_to l (some seek) w =
      answer_with o seek.responder (shown o (publish_state o (switched l seek w)))

  unfoldable pub finish_seek_from : Transport words → W o → W o
  unfolding switch_to
  finish_seek_from (loaded l) w = switch_to l l.seek w
  finish_seek_from _ w = w

  unfoldable pub finish_seek : W o → W o
  unfolding finish_seek_from
  finish_seek w = finish_seek_from w.transport w

  unfoldable pub select_started : Option (AudioOutputSelection (Words.Text words)) → W o → W o
  unfolding preferences_changed
  select_started none w = w
  select_started (some selection) w =
      preferences_changed o (record w { output_selection = selection })

  unfoldable pub resume_at : Option ℕ → W o → W o
  unfolding begin_seek
  resume_at none w = w
  resume_at (some position_ms) w = begin_seek position_ms none w

  -- The loaded track of a start.
  unfoldable pub started : StartRequest words → Prebuffering words → W o → W o
  unfolding select_started from_start
  started request b w =
      let w₁ = emit o (told_loaded request.id request.item) (select_started request.selection w) in
      let (now, world) = Outside.clock o w₁.world in
      let l : Loaded words = record {
        id = request.id;
        item = request.item;
        started_by = request.started_by;
        source = b.source;
        output = b.output;
        pipeline = b.pipeline;
        position = from_start (rate_of b.output) b.duration_ms now;
        completion_time = none;
        paused = request.start_paused;
        seek = none;
        prefetch = none;
      } in
      record w₁ {
        world = world;
        last_item = some request.item;
        skipped_in_a_row = 0;
        transport = loaded l;
      }

  -- The rest of `finish_start` once the stream plays, or is not to play yet.
  unfoldable pub start_finished : StartRequest words → Prebuffering words → W o → W o
  unfolding started publish_state respond resume_at
  start_finished request b w =
      resume_at request.resume_at_ms
        (answer_with o request.responder (shown o (publish_state o (started request b w))))

  unfoldable pub stream_started :
      StartRequest words → Prebuffering words → Option AudioOutputError → W o → W o
  unfolding fail_start output_failure_code start_finished
  stream_started request b (some e) w =
      fail_start o request (record { phase = stream_start; code = output_failure_code e })
        (emit o (pipeline_cancelled b.pipeline) w)
  stream_started request b none w = start_finished request b w

  unfoldable pub finish_start_from : Transport words → W o → W o
  unfolding start_finished stream_started
  finish_start_from (loading request (prebuffering b)) w =
      if request.start_paused
      then start_finished request b w
      else (let (failure, world) = Outside.start_stream o b.output.id w.world in
          stream_started request b failure (record w { world = world }))
  finish_start_from _ w = w

  unfoldable pub finish_start : W o → W o
  unfolding finish_start_from
  finish_start w = finish_start_from w.transport (set_transport o idle w)

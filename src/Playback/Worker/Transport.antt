-- ===== src/Playback/Worker/Transport.antt =====
-- Stopping, pausing, resuming and switching the output device
-- (backend/src/audio/playback/worker/transport.rs; session.rs, `Prefetch::cancel`).
use nice_audio_player.Playback.Worker.State.{idle, failed}
use nice_audio_player.Playback.Worker.Publish.{
  publish, at_frame, playback_versioned, sample_position, preferences_changed, publish_state,
}
use nice_audio_player.Playback.Worker.State.{
  unusable, prebuffering, ready, shows, load_cancelled, timing_cleared, pipeline_cancelled,
  prefetch_source, refused, SeekInFlight, loading_source, PlaybackSnapshot, loading, loaded,
  Prefetch, PrefetchState, Loaded, Answer, Transport, LoadStage,
}
use nice_audio_player.Playback.Worker.Types.{
  system_default, device, output_error, invalid_playback_state, stream_start_failed, superseded,
  DeviceResolutionError, resolution_error, stream_resume_failed, AudioOutputSelection,
  output_failure_code, PlaybackServiceError, AudioOutputError, Versioned,
}
use nice_audio_player.Playback.Worker.Tracks.{emit, W, respond}
use nice_audio_player.Playback.Worker.Outside.{bad, good, Outside, Words}
use nice_audio_player.Prelude.{ℕ, true, some, not, none, if◌then◌else◌, false, Option, Bool}

module _ {words : Words} (o : Outside words) where
  abbrev pub set_transport : Transport words → W o → W o
  set_transport t w = record w { transport = t }

  -- `Ok` of a published snapshot.
  abbrev pub shown : Versioned (PlaybackSnapshot words) × W o → Answer words × W o
  shown published = (shows published.0, published.1)

  abbrev pub answer_with : Option ℕ → Answer words × W o → W o
  answer_with reply answer = respond o reply answer.0 answer.1

  unfoldable pub cancel_stage : LoadStage words → W o → W o
  cancel_stage (loading_source load) w = emit o (load_cancelled load) w
  cancel_stage (prebuffering b) w = emit o (pipeline_cancelled b.pipeline) w

  -- `Prefetch::cancel`.
  unfoldable pub cancel_prefetched : PrefetchState words → W o → W o
  cancel_prefetched (prefetch_source load item) w = emit o (load_cancelled load) w
  cancel_prefetched (ready next) w = emit o (pipeline_cancelled next.pipeline) w
  cancel_prefetched unusable w = w

  unfoldable pub drop_prefetch : Option (Prefetch words) → W o → W o
  unfolding cancel_prefetched
  drop_prefetch none w = w
  drop_prefetch (some prefetch) w = cancel_prefetched prefetch.state w

  unfoldable pub drop_seek : Option (SeekInFlight words) → PlaybackServiceError → W o → W o
  unfolding respond
  drop_seek none e w = w
  drop_seek (some seek) e w =
      respond o seek.responder (refused e) (emit o (pipeline_cancelled seek.pipeline) w)

  unfoldable pub let_go : Loaded words → PlaybackServiceError → W o → W o
  unfolding drop_seek drop_prefetch
  let_go l e w =
      emit o (pipeline_cancelled l.pipeline) (drop_prefetch l.prefetch (drop_seek l.seek e w))

  unfoldable pub discard : Transport words → W o → W o
  unfolding cancel_stage respond let_go
  discard idle w = w
  discard (failed id code skipping) w = w
  discard (loading request stage) w =
      respond o request.responder (refused superseded) (cancel_stage stage w)
  discard (loaded l) w = let_go l superseded w

  unfoldable pub discard_transport : W o → W o
  unfolding discard
  discard_transport w = discard w.transport (set_transport idle w)

  unfoldable pub drop_loaded_from : Transport words → PlaybackServiceError → W o → Option ℕ × W o
  unfolding let_go
  drop_loaded_from (loaded l) e w = (some l.id, let_go l e w)
  drop_loaded_from _ e w = (none, w)

  unfoldable pub drop_loaded : PlaybackServiceError → W o → Option ℕ × W o
  unfolding drop_loaded_from
  drop_loaded e w = drop_loaded_from w.transport e (set_transport idle w)

  unfoldable pub control_failure : AudioOutputError → W o → Answer words × W o
  unfolding drop_loaded output_failure_code
  control_failure e w =
      let (id, w₁) = drop_loaded superseded w in
      let code = output_failure_code e in
      (refused (output_error code), publish o (set_transport (failed id code false) w₁))

  -- `pause` of a track that plays, once the stream has answered.
  unfoldable pub stream_paused : Loaded words → Option AudioOutputError → W o → Answer words × W o
  unfolding control_failure sample_position publish_state
  stream_paused l (some e) w = control_failure e w
  stream_paused l none w =
      let (frame, w₁) = sample_position o l w in
      let l₁ = record (at_frame o l frame) { paused = true } in
      shown (publish_state o (set_transport (loaded l₁) (emit o timing_cleared w₁)))

  unfoldable pub pause_from : Transport words → W o → Answer words × W o
  unfolding playback_versioned stream_paused
  pause_from (loading request stage) w =
      let request₁ = record request { start_paused = true } in
      shown (playback_versioned o (set_transport (loading request₁ stage) w))
  pause_from (loaded l) w =
      if l.paused
      then shown (playback_versioned o w)
      else (let (failure, world) = Outside.pause_stream o l.output.id w.world in
          stream_paused l failure (record w { world = world }))
  pause_from _ w = (refused invalid_playback_state, w)

  unfoldable pub pause : W o → Answer words × W o
  unfolding pause_from
  pause w = pause_from w.transport w

  abbrev pub resume_error : AudioOutputError → AudioOutputError
  resume_error stream_start_failed = stream_resume_failed
  resume_error e = e

  unfoldable pub stream_resumed : Loaded words → Option AudioOutputError → W o → Answer words × W o
  unfolding control_failure publish_state
  stream_resumed l (some e) w = control_failure (resume_error e) w
  stream_resumed l none w =
      shown (publish_state o (set_transport (loaded (record l { paused = false })) w))

  unfoldable pub resume_from : Transport words → W o → Answer words × W o
  unfolding playback_versioned stream_resumed
  resume_from (loading request stage) w =
      let request₁ = record request { start_paused = false } in
      shown (playback_versioned o (set_transport (loading request₁ stage) w))
  resume_from (loaded l) w =
      if not l.paused
      then shown (playback_versioned o w)
      else (let (failure, world) = Outside.start_stream o l.output.id w.world in
          stream_resumed l failure (record w { world = world }))
  resume_from _ w = (refused invalid_playback_state, w)

  unfoldable pub resume : W o → Answer words × W o
  unfolding resume_from
  resume w = resume_from w.transport w

  unfoldable pub same_selection :
      AudioOutputSelection (Words.Text words) → AudioOutputSelection (Words.Text words) → Bool
  same_selection system_default system_default = true
  same_selection (device a) (device b) = Words.same_text words a b
  same_selection _ _ = false

  -- The device of a selection is resolved; nothing is, for the system's default.
  unfoldable pub resolve_selected :
      AudioOutputSelection (Words.Text words) → W o → Option DeviceResolutionError × W o
  resolve_selected system_default w = (none, w)
  resolve_selected (device id) w =
      let (answer, world) = Outside.resolve_device o (device id) w.world in
      (elim answer [ good identity ↦ none | bad e ↦ some e ], record w { world = world })

  -- What a changed selection is published with, in each transport.
  unfoldable pub selection_published : Transport words → Bool → W o → Answer words × W o
  unfolding publish_state playback_versioned
  selection_published (failed id code skipping) unchanged w =
      shown (publish_state o (set_transport idle w))
  selection_published t unchanged w =
      if unchanged then shown (playback_versioned o w) else shown (publish_state o w)

  unfoldable pub commit_selection :
      AudioOutputSelection (Words.Text words)
      → Option DeviceResolutionError
      → W o
      → Answer words × W o
  unfolding same_selection preferences_changed selection_published resolution_error
  commit_selection selection (some e) w = (refused (resolution_error e), w)
  commit_selection selection none w =
      let unchanged = same_selection w.output_selection selection in
      let w₁ = record w { output_selection = selection } in
      let w₂ = if unchanged then w₁ else preferences_changed o w₁ in
      selection_published w₂.transport unchanged w₂

  abbrev pub is_loading : Transport words → Bool
  is_loading (loading request stage) = true
  is_loading _ = false

  unfoldable pub set_output_selection :
      AudioOutputSelection (Words.Text words) → W o → Answer words × W o
  unfolding resolve_selected commit_selection
  set_output_selection selection w =
      if is_loading w.transport
      then (refused invalid_playback_state, w)
      else (let (failure, w₁) = resolve_selected selection w in
          commit_selection selection failure w₁)

-- ===== src/Playback/Worker/Failure.antt =====
-- Failed streams and decodes (backend/src/audio/playback/worker/failure.rs).
use nice_audio_player.Playback.Worker.Failed.{
  begin_start, new_start, next_after_item_failure, show_failure, fail_start, will_skip,
}
use nice_audio_player.Playback.Worker.Prefetch.{prefetch_unusable}
use nice_audio_player.Playback.Worker.Publish.{publish, publish_state}
use nice_audio_player.Playback.Worker.Seek.{cancel_seek}
use nice_audio_player.Playback.Worker.Types.{
  preserve_playback, by_auto, is_item_scope, refresh_default_device_action, PlaybackServiceError,
  FailureScope, item_scope, owned_by_active, decode_failed, fail_action, DeviceResolutionError,
  output_device_unavailable, owned_by_start, owned_by_prefetch, prebuffer_conversion,
  prebuffer_decode, output_error, owned_by_seek, StreamSignalAction, StartFailurePhase,
  output_scope, StreamFailureKind, gone, system_default, service_error, PipelineOwner,
  PlaybackFailureCode, stream_signal_action,
}
use nice_audio_player.Playback.Worker.Tracks.{emit, W}
use nice_audio_player.Playback.Worker.Transport.{set_transport, cancel_stage, drop_loaded}
use nice_audio_player.Playback.Worker.State.{
  Loaded, PrefetchState, PlayableItem, pipeline_cancelled, idle, ready, prebuffering, loading,
  loaded, SeekInFlight, Prefetch, Transport,
}
use nice_audio_player.Playback.Worker.Outside.{
  good, AudioOutputDeviceIdentity, Answered, Outside, Words,
}
use nice_audio_player.Prelude.{◌==◌, ◌&&◌, ℕ, true, some, none, if◌then◌else◌, false, Option, Bool}

module _ {words : Words} (o : Outside words) where
  -- The next item, which nobody waits for.
  unfoldable pub start_next : Option (PlayableItem words) → W o → W o
  unfolding new_start begin_start
  start_next none w = w
  start_next (some item) w =
      let (request, w₁) = new_start o item by_auto none false w in begin_start o request w₁

  unfoldable pub fail_active : PlaybackFailureCode → FailureScope → PlaybackServiceError → W o → W o
  unfolding drop_loaded will_skip show_failure next_after_item_failure start_next
  fail_active code scope seek_error w =
      let (id, w₁) = drop_loaded o seek_error w in
      let skipping = is_item_scope scope && will_skip o w₁ in
      let w₂ = show_failure o id code skipping w₁ in
      let (next, w₃) = next_after_item_failure o w₂ in
      if is_item_scope scope then start_next next w₃ else w₂

  unfoldable pub fail_output : PlaybackFailureCode → W o → W o
  unfolding fail_active
  fail_output code w = fail_active code output_scope (output_error code) w

  abbrev pub decode_phase : PlaybackFailureCode → StartFailurePhase
  decode_phase decode_failed = prebuffer_decode
  decode_phase _ = prebuffer_conversion

  unfoldable pub fail_loading : PlaybackFailureCode → Transport words → W o → W o
  unfolding cancel_stage fail_start
  fail_loading code (loading request (prebuffering b)) w =
      fail_start o request (record { phase = decode_phase code; code = code })
        (emit o (pipeline_cancelled b.pipeline) w)
  fail_loading code (loading request stage) w =
      fail_start o request (record { phase = decode_phase code; code = code }) w
  fail_loading code _ w = w

  abbrev owner_if : Bool → PipelineOwner → PipelineOwner → PipelineOwner
  owner_if mine owner other = if mine then owner else other

  unfoldable pub owner_of_state : PrefetchState words → ℕ → PipelineOwner
  owner_of_state (ready next) pipeline = owner_if (next.pipeline == pipeline) owned_by_prefetch gone
  owner_of_state _ pipeline = gone

  unfoldable pub owner_of_next : Option (Prefetch words) → ℕ → PipelineOwner
  unfolding owner_of_state
  owner_of_next none pipeline = gone
  owner_of_next (some prefetch) pipeline = owner_of_state prefetch.state pipeline

  unfoldable pub owner_of_seek : Option (SeekInFlight words) → ℕ → PipelineOwner → PipelineOwner
  owner_of_seek none pipeline other = other
  owner_of_seek (some seek) pipeline other =
      owner_if (seek.pipeline == pipeline) owned_by_seek other

  unfoldable pub owner_of : Transport words → ℕ → PipelineOwner
  unfolding owner_of_next owner_of_seek
  owner_of (loading request (prebuffering b)) pipeline =
      owner_if (b.pipeline == pipeline) owned_by_start gone
  owner_of (loaded l) pipeline =
      owner_if (l.pipeline == pipeline) owned_by_active
        (owner_of_seek l.seek pipeline (owner_of_next l.prefetch pipeline))
  owner_of _ pipeline = gone

  -- What the decode thread of an owner that stopped is for it.
  unfoldable pub stopped_for : PipelineOwner → PlaybackFailureCode → W o → W o
  unfolding fail_loading fail_active service_error cancel_seek prefetch_unusable
  stopped_for owned_by_start code w = fail_loading code w.transport (set_transport o idle w)
  stopped_for owned_by_active code w =
      fail_active code item_scope
        (service_error (record { phase = decode_phase code; code = code })) w
  stopped_for owned_by_seek code w =
      cancel_seek o (service_error (record { phase = decode_phase code; code = code })) w
  stopped_for owned_by_prefetch code w = prefetch_unusable o w
  stopped_for gone code w = w

  unfoldable pub decode_stopped : ℕ → PlaybackFailureCode → W o → W o
  unfolding owner_of stopped_for
  decode_stopped pipeline code w = stopped_for (owner_of w.transport pipeline) code w

  abbrev pub on_device : AudioOutputDeviceIdentity words → Loaded words → Loaded words
  on_device identity l =
      let config = record (l.output.config) {
        device_id = identity.id;
        device_name = identity.name;
      } in
      record l { output = record (l.output) { config = config } }

  unfoldable pub refreshed :
      Transport words
      → Answered words (AudioOutputDeviceIdentity words) DeviceResolutionError
      → W o
      → Bool × W o
  unfolding publish_state
  refreshed (loaded l) (good identity) w =
      (true, publish o (set_transport o (loaded (on_device identity l)) w))
  refreshed _ _ w = (false, w)

  unfoldable pub refresh_default_device : W o → Bool × W o
  unfolding refreshed
  refresh_default_device w =
      let (answer, world) = Outside.resolve_device o system_default w.world in
      refreshed w.transport answer (record w { world = world })

  unfoldable pub act_on_stream : StreamSignalAction → W o → W o
  unfolding cancel_seek refresh_default_device fail_output
  act_on_stream refresh_default_device_action w =
      let (recovered, w₁) =
        refresh_default_device (cancel_seek o (output_error output_device_unavailable) w) in
      let stopped = fail_output output_device_unavailable w₁ in if recovered then w₁ else stopped
  act_on_stream preserve_playback w = w
  act_on_stream (fail_action code) w = fail_output code w

  abbrev pub plays_on : Transport words → ℕ → Bool
  plays_on (loaded l) stream = l.output.id == stream
  plays_on _ stream = false

  unfoldable pub stream_failed : ℕ → StreamFailureKind → W o → W o
  unfolding stream_signal_action act_on_stream
  stream_failed stream kind w =
      if plays_on w.transport stream
      then act_on_stream (stream_signal_action w.output_selection kind) w
      else w

-- ===== src/Playback/Worker/Publish.antt =====
-- Rendering the transport and the queue, and telling listeners
-- (backend/src/audio/playback/worker/publish.rs, snapshot.rs).
use nice_audio_player.Prelude.{
  ◌||◌, ◌^◌, ◌==◌, ◌-◌, ◌&&◌, ℕ, unwrap_or, take, some, not, none, min, map, true, length, leb,
  is_some, if◌then◌else◌, false, drop, Option, Bool,
}
use nice_audio_player.Playback.Worker.Rows.{
  as_list, first_row, flatten, rows_of, shown_history, shown_rows, splits,
}
use nice_audio_player.Timebase.{frame_to_millis, millis_to_frame}
use nice_audio_player.Playback.Queue.State.{
  PlaybackQueue, current_entry, history, upcoming, saturating_add, can_go_previous, can_go_next,
}
use nice_audio_player.Playback.Worker.Types.{Versioned}
use nice_audio_player.Playback.Worker.Outside.{Words, Outside}
use nice_audio_player.Playback.Worker.State.{
  queue_state_changed, preferences_saved, playback_changed, position_changed, PlayableItem,
  map_option, absolute, Loaded, Transport, idle, loading, loaded, failed, SnapshotBase,
  PlaybackSnapshot, ActiveSession, PlaybackPosition, PlaybackQueueSnapshot, stopped, playing,
  paused_at, stopped_failed,
}
use nice_audio_player.Playback.Worker.Tracks.{
  W, emit, item_of, to_playback_item, resolve, prune_unavailable,
}

abbrev pub previous_restart_threshold_ms : ℕ
previous_restart_threshold_ms = 3000

unfoldable pub previous_restarts_track : ℕ → Option ℕ → Bool
previous_restarts_track position_ms duration_ms =
    is_some duration_ms && leb previous_restart_threshold_ms position_ms

abbrev pub u32_max : ℕ
u32_max = 2 ^ 32 - 1

module _ {words : Words} where
  unfoldable pub position_ms : Loaded words → ℕ
  unfolding frame_to_millis
  position_ms l = frame_to_millis l.position.frame l.position.sample_rate

  unfoldable pub loaded_can_go_previous : PlaybackQueue → Loaded words → Bool
  unfolding can_go_previous position_ms previous_restarts_track
  loaded_can_go_previous q l =
      can_go_previous q || previous_restarts_track (position_ms l) l.position.duration_ms

  unfoldable pub session_of : PlaybackSnapshot words → Option (ActiveSession words)
  session_of (playing base s) = some s
  session_of (paused_at base s) = some s
  session_of _ = none

  unfoldable pub base_of : PlaybackSnapshot words → SnapshotBase words
  base_of (stopped base item) = base
  base_of (playing base s) = base
  base_of (paused_at base s) = base
  base_of (stopped_failed base item id code skipping) = base

  unfoldable pub session_position : ActiveSession words → PlaybackPosition words
  session_position s = record {
    playback_id = s.playback_id;
    position_ms = s.position_ms;
    seek_revision = s.seek_revision;
  }

module _ {words : Words} (o : Outside words) where
  open words use {output_rate, source_rate, channel_conversion, extension}

  -- `SnapshotBase::new`, with what can be gone to.
  unfoldable pub base_with : W o → Bool → Bool → SnapshotBase words
  base_with w previous next = record {
    volume = w.volume_state.volume;
    muted = w.volume_state.muted;
    output_selection = w.output_selection;
    can_go_previous = previous;
    can_go_next = next;
  }

  unfoldable pub render_session : W o → Loaded words → ActiveSession words
  unfolding position_ms
  render_session w l =
      let config = l.output.config in
      let plan = config.processing_plan in
      record {
        item = to_playback_item o l.item;
        started_by = l.started_by;
        playback_id = l.id;
        position_ms = position_ms l;
        seek_revision = w.seek_revision;
        duration_ms = l.position.duration_ms;
        output_device = record { id = config.device_id; name = config.device_name };
        channel_conversion = channel_conversion plan;
        source_format = unwrap_or l.item.track.file_format (extension l.item.track.file);
        source_bit_depth = l.item.track.bit_depth;
        source_bitrate_kbps = l.item.track.bitrate_kbps;
        source_sample_rate = source_rate plan;
        output_sample_rate = output_rate plan;
        resampling_active = not (source_rate plan == output_rate plan);
      }

  -- The item that a failed transport shows: reading it may change the cache.
  unfoldable pub failed_item : W o → Option (PlayableItem words) × W o
  unfolding current_entry item_of
  failed_item w = elim (current_entry w.queue) [
    | none ↦ (w.last_item, w)
    | some entry ↦
        let (item, w₁) = item_of o entry w in
        (elim item [ none ↦ w.last_item | some i ↦ some i ], w₁)
  ]

  unfoldable pub render_transport : Transport words → W o → PlaybackSnapshot words × W o
  unfolding base_with render_session failed_item loaded_can_go_previous can_go_previous can_go_next
  render_transport idle w =
      (stopped (base_with w false false) (map_option (to_playback_item o) w.last_item), w)
  render_transport (loading request stage) w =
      (stopped (base_with w false false) (map_option (to_playback_item o) w.last_item), w)
  render_transport (loaded l) w =
      let base = base_with w (loaded_can_go_previous w.queue l) (can_go_next w.queue) in
      let session = render_session w l in
      (if l.paused then paused_at base session else playing base session, w)
  render_transport (failed id code skipping) w =
      let base = base_with w (can_go_previous w.queue) (can_go_next w.queue) in
      let (item, w₁) = failed_item w in
      (stopped_failed base (map_option (to_playback_item o) item) id code skipping, w₁)

  unfoldable pub render : W o → PlaybackSnapshot words × W o
  unfolding render_transport
  render w = render_transport w.transport w

  unfoldable pub playback_versioned : W o → Versioned (PlaybackSnapshot words) × W o
  unfolding render
  playback_versioned w =
      let (value, w₁) = render w in (record { revision = w.revision; value = value }, w₁)

  -- `Loaded::sample_position`, with the stream that the track plays on.
  unfoldable pub sample_position : Loaded words → W o → ℕ × W o
  unfolding millis_to_frame absolute
  sample_position l w =
      let rate = l.position.sample_rate in
      let max_frames = map_option (λ d. millis_to_frame d rate) l.position.duration_ms in
      let (relative, world) = Outside.played_frame_position o l.output.id rate max_frames w.world in
      (absolute l.position relative, record w { world = world })

  abbrev pub at_frame : Loaded words → ℕ → Loaded words
  at_frame l f = record l { position = record (l.position) { frame = f } }

  unfoldable pub refresh_position : Transport words → W o → W o
  unfolding sample_position
  refresh_position (loaded l) w =
      if l.paused
      then w
      else (let (f, w₁) = sample_position l w in record w₁ { transport = loaded (at_frame l f) })
  refresh_position _ w = w

  unfoldable pub publish_state : W o → Versioned (PlaybackSnapshot words) × W o
  unfolding refresh_position playback_versioned session_position session_of
  publish_state w =
      let w₁ = refresh_position w.transport w in
      let (published, w₂) =
        playback_versioned (record w₁ { revision = saturating_add w₁.revision 1 }) in
      (
        published,
        emit o playback_changed (record w₂ {
          position = map_option session_position (session_of published.value);
          snapshot = published;
        }),
      )

  -- `publish_state` where its result is not used.
  abbrev pub publish : W o → W o
  publish w = (publish_state w).1

  unfoldable pub publish_position : W o → W o
  unfolding position_ms
  publish_position w = elim w.transport [
    | loaded l ↦ emit o position_changed (record w {
      position = some (record {
        playback_id = l.id;
        position_ms = position_ms l;
        seek_revision = w.seek_revision;
      });
    })
    | _ ↦ w
  ]

  unfoldable pub queue_snapshot_of : W o → PlaybackQueueSnapshot words × W o
  unfolding history upcoming current_entry resolve rows_of shown_history shown_rows splits
  queue_snapshot_of w =
      let q = w.queue in
      let now = as_list (current_entry q) in
      let before = shown_history q in
      let (answer, w₁) = resolve o (map (λ e. e.track_id) (shown_rows q)) w in
      let rows = rows_of (shown_rows q) answer in
      let rest = drop (length before) rows in
      (
        record {
          current = first_row (take (length now) rest);
          history = flatten (take (length before) rows);
          history_count = min (length (history q)) u32_max;
          upcoming = flatten (drop (length now) rest);
          upcoming_count = min (length (upcoming q)) u32_max;
          repeat_mode = q.repeat;
          shuffle_enabled = q.shuffle;
          can_restore_previous = is_some w.previous_queue;
        },
        record w₁ { panicked = if splits before now (length rows) then w₁.panicked else true },
      )

  unfoldable pub publish_queue : W o → W o
  unfolding prune_unavailable queue_snapshot_of
  publish_queue w =
      let w₁ = prune_unavailable o w in
      let revision = saturating_add w₁.next_queue_revision 1 in
      let (value, w₂) = queue_snapshot_of (record w₁ { next_queue_revision = revision }) in
      emit o queue_state_changed
        (record w₂ { queue_snapshot = record { revision = revision; value = value } })

  unfoldable pub queue_changed : Bool → W o → Versioned (PlaybackQueueSnapshot words) × W o
  unfolding publish_queue publish_state
  queue_changed changed w =
      if not changed
      then (w.queue_snapshot, w)
      else (let w₁ = publish_queue w in (w₁.queue_snapshot, publish w₁))

  unfoldable pub preferences_changed : W o → W o
  preferences_changed w =
      emit o
        (preferences_saved (record {
          volume = w.volume_state.volume;
          muted = w.volume_state.muted;
          output_selection = w.output_selection;
          repeat_mode = w.queue.repeat;
          shuffle_enabled = w.queue.shuffle;
        }))
        w

-- ===== src/Playback/Worker/Commands.antt =====
-- What arrives at the worker: commands of callers and events of threads
-- (backend/src/audio/playback/worker.rs, service.rs, input.rs, worker/start.rs, transport.rs,
-- preferences.rs, ../volume.rs). A reply is known by a number.
use nice_audio_player.Playback.Worker.Seek.{begin_seek}
use nice_audio_player.Playback.Worker.Transport.{
  answer_with, set_output_selection, shown, resume, same_selection,
}
use nice_audio_player.Playback.Worker.Failed.{settle, panic, begin_start, Step}
use nice_audio_player.Playback.Queue.Order.{advance, same_bool, restore, replace}
use nice_audio_player.Playback.Worker.Start.{start_current}
use nice_audio_player.Playback.Worker.State.{
  gain_stored, Loaded, shows_queue, refused, Answer, loaded, failed, Transport, VolumeState,
}
use nice_audio_player.Playback.Worker.Tracks.{emit, W, forget, respond}
use nice_audio_player.Playback.Queue.State.{
  panicked, ok, user_previous, err, current_entry, PlaybackQueue, PlaybackRepeatMode, is_empty,
  QueueEntry, AdvanceReason,
}
use nice_audio_player.Playback.Worker.Publish.{
  publish_state, position_ms, preferences_changed, playback_versioned, previous_restarts_track,
  publish_queue,
}
use nice_audio_player.Playback.Worker.Types.{
  DeviceResolutionError, invalid_volume, invalid_playback_state, by_next, by_previous,
  StreamFailureKind, by_jump, resolution_error, SessionStartedBy, CompressedSourceError,
  AudioOutputSelection,
}
use nice_audio_player.Playback.Worker.Outside.{
  good, bad, AudioOutputDeviceIdentity, Answered, Outside, Words,
}
use nice_audio_player.Prelude.{
  ◌==◌, ◌&&◌, ℕ, true, some, not, none, is_some, if◌then◌else◌, false, Option, List, Bool,
}

module _ (words : Words) where
  open words use {Text, Volume, Source}

  pub data PlaybackCommand : Type 0 where
    start : List ℕ → ℕ → ℕ → PlaybackCommand
    previous next pause_playback resume_playback : ℕ → PlaybackCommand
    seek_to : ℕ → ℕ → PlaybackCommand
    set_volume_to : Volume → ℕ → PlaybackCommand
    mute_volume unmute_volume : ℕ → PlaybackCommand
    select_output : AudioOutputSelection Text → ℕ → PlaybackCommand
    set_repeat_mode : PlaybackRepeatMode → ℕ → PlaybackCommand
    set_shuffle_to : Bool → ℕ → PlaybackCommand
    remove_queue_item : ℕ → ℕ → PlaybackCommand
    move_queue_item : ℕ → ℕ → ℕ → PlaybackCommand
    clear_queue restore_previous : ℕ → PlaybackCommand
    play_queue_item : ℕ → ℕ → PlaybackCommand
    enqueue_tracks : List ℕ → Bool → ℕ → PlaybackCommand

  pub data WorkerEvent : Type 0 where
    source_loaded : ℕ → Answered words Source CompressedSourceError → WorkerEvent
    prebuffer_ready : ℕ → WorkerEvent
    decode_stopped_event conversion_failed : ℕ → WorkerEvent
    final_frames : ℕ → ℕ → WorkerEvent
    stream_failed_event : ℕ → StreamFailureKind → WorkerEvent

module _ {words : Words} (o : Outside words) where
  open words use {Text, Volume, Source}

  unfoldable pub effective_gain : VolumeState words → Volume
  effective_gain v = if v.muted then Words.silence words else v.volume

  unfoldable pub volume_changed : Bool → W o → Answer words × W o
  unfolding playback_versioned effective_gain preferences_changed publish_state
  volume_changed changed w =
      if not changed
      then shown o (playback_versioned o w)
      else shown o (
          publish_state o
            (preferences_changed o (emit o (gain_stored (effective_gain w.volume_state)) w)))

  unfoldable pub set_volume : Volume → W o → Answer words × W o
  unfolding volume_changed
  set_volume volume w =
      let changed = not (Words.same_volume words w.volume_state.volume volume) in
      let v = record (w.volume_state) { volume = volume } in
      if Words.in_range words volume
      then volume_changed changed (record w { volume_state = v })
      else (refused invalid_volume, w)

  unfoldable pub set_muted : Bool → W o → Answer words × W o
  unfolding volume_changed
  set_muted muted w =
      volume_changed (not (same_bool w.volume_state.muted muted))
        (record w { volume_state = record (w.volume_state) { muted = muted } })

  unfoldable pub keep_previous : PlaybackQueue → Option PlaybackQueue
  unfolding is_empty
  keep_previous before = if is_empty before then none else some before

  unfoldable pub queue_replaced : Step o Unit → W o → Bool × W o
  unfolding keep_previous forget
  queue_replaced panicked w = (true, panic o w)
  queue_replaced (err e s) w = (false, settle o s w)
  queue_replaced (ok _ s) w =
      (true, forget o (record (settle o s w) { previous_queue = keep_previous w.queue }))

  unfoldable pub replace_queue : List ℕ → ℕ → W o → Bool × W o
  unfolding replace queue_replaced
  replace_queue track_ids start_index w =
      queue_replaced (replace (Outside.rand o) w.queue track_ids start_index w.gen) w

  unfoldable pub start_queue : List ℕ → ℕ → ℕ → W o → W o
  unfolding replace_queue respond start_current
  start_queue track_ids start_index reply w =
      let (replaced, w₁) = replace_queue track_ids start_index w in
      let started =
        start_current o (some reply) false by_jump (record w₁ { skipped_in_a_row = 0 }) in
      if replaced then started else respond o (some reply) (refused invalid_playback_state) w₁

  unfoldable pub start_enqueued : List ℕ → ℕ → W o → W o
  unfolding replace_queue respond start_current
  start_enqueued track_ids reply w =
      let (replaced, w₁) = replace_queue track_ids 0 w in
      let w₂ = start_current o none false by_jump (record w₁ { skipped_in_a_row = 0 }) in
      if replaced
      then respond o (some reply) (shows_queue w₂.queue_snapshot) w₂
      else respond o (some reply) (refused invalid_playback_state) w₁

  abbrev pub is_loaded : Transport words → Bool
  is_loaded (loaded l) = true
  is_loaded _ = false

  abbrev pub same_entry : Option QueueEntry → Option QueueEntry → Bool
  same_entry (some now) (some then_) = now.id == then_.id
  same_entry _ _ = false

  unfoldable pub play_restored : Bool → ℕ → W o → W o
  unfolding publish_queue publish_state respond start_current
  play_restored same_current reply w =
      let w₁ = record w { skipped_in_a_row = 0 } in
      if same_current
      then answer_with o (some reply) (shown o (publish_state o (publish_queue o w₁)))
      else start_current o (some reply) false by_jump w₁

  -- `restore` does not fail.
  unfoldable pub queue_restored : Bool → Step o Unit → ℕ → W o → W o
  unfolding play_restored
  queue_restored same_current panicked reply w = panic o w
  queue_restored same_current (err e s) reply w = play_restored same_current reply (settle o s w)
  queue_restored same_current (ok _ s) reply w = play_restored same_current reply (settle o s w)

  unfoldable pub restore_from : Option PlaybackQueue → ℕ → W o → W o
  unfolding respond current_entry restore queue_restored
  restore_from none reply w = respond o (some reply) (refused invalid_playback_state) w
  restore_from (some before) reply w =
      let same_current =
        same_entry (current_entry w.queue) (current_entry before) && is_loaded w.transport in
      queue_restored same_current (restore (Outside.rand o) w.queue before w.gen) reply
        (record w { previous_queue = none })

  unfoldable pub restore_previous_queue : ℕ → W o → W o
  unfolding restore_from
  restore_previous_queue reply w = restore_from w.previous_queue reply w

  abbrev pub is_paused : Transport words → Bool
  is_paused (loaded l) = l.paused
  is_paused _ = false

  abbrev pub restarts : AdvanceReason → Transport words → Bool
  restarts user_previous (loaded l) = previous_restarts_track (position_ms l) l.position.duration_ms
  restarts _ _ = false

  abbrev pub started_by_of : AdvanceReason → SessionStartedBy
  started_by_of user_previous = by_previous
  started_by_of _ = by_next

  unfoldable pub navigated : AdvanceReason → Step o (Option QueueEntry) → Bool → ℕ → W o → W o
  unfolding playback_versioned respond start_current
  navigated reason panicked paused reply w = panic o w
  navigated reason (err e s) paused reply w =
      answer_with o (some reply) (shown o (playback_versioned o (settle o s w)))
  navigated reason (ok none s) paused reply w =
      answer_with o (some reply) (shown o (playback_versioned o (settle o s w)))
  navigated reason (ok (some entry) s) paused reply w =
      start_current o (some reply) paused (started_by_of reason) (settle o s w)

  unfoldable pub navigate : AdvanceReason → ℕ → W o → W o
  unfolding previous_restarts_track position_ms begin_seek advance navigated
  navigate reason reply w =
      if restarts reason w.transport
      then begin_seek o 0 (some reply) w
      else navigated reason (advance (Outside.rand o) w.queue reason w.gen) (is_paused w.transport)
          reply (record w { skipped_in_a_row = 0 })

  abbrev is_failed : Transport words → Bool
  is_failed (failed id code skipping) = true
  is_failed _ = false

  unfoldable pub resume_command : ℕ → W o → W o
  unfolding start_current resume respond
  resume_command reply w =
      if is_failed w.transport
      then start_current o (some reply) false by_jump (record w { skipped_in_a_row = 0 })
      else answer_with o (some reply) (resume o w)

  -- The selection can be changed: the track starts again on the device, if it is there.
  unfoldable pub restart_on :
      Loaded words
      → AudioOutputSelection Text
      → ℕ
      → Answered words (AudioOutputDeviceIdentity words) DeviceResolutionError
      → W o
      → W o
  unfolding respond resolution_error position_ms begin_start
  restart_on l selection reply (bad e) w = respond o (some reply) (refused (resolution_error e)) w
  restart_on l selection reply (good identity) w =
      begin_start o
        (record {
          id = l.id;
          item = l.item;
          started_by = l.started_by;
          responder = some reply;
          start_paused = l.paused;
          resume_at_ms = some (position_ms l);
          selection = some selection;
        })
        w

  unfoldable pub change_from : Transport words → AudioOutputSelection Text → ℕ → W o → W o
  unfolding respond same_selection playback_versioned restart_on set_output_selection
  change_from (loaded l) selection reply w =
      if is_some l.seek
      then respond o (some reply) (refused invalid_playback_state) w
      else if same_selection o selection w.output_selection
      then answer_with o (some reply) (shown o (playback_versioned o w))
      else (let (answer, world) = Outside.resolve_device o selection w.world in
          restart_on l selection reply answer (record w { world = world }))
  change_from t selection reply w = answer_with o (some reply) (set_output_selection o selection w)

  unfoldable pub change_output_selection : AudioOutputSelection Text → ℕ → W o → W o
  unfolding change_from
  change_output_selection selection reply w = change_from w.transport selection reply w

-- ===== src/Playback/Worker/Handle.antt =====
-- The worker takes one input at a time (backend/src/audio/playback/worker.rs, worker/publish.rs).
use nice_audio_player.Playback.Queue.Order.{set_shuffle}
use nice_audio_player.Playback.Queue.Move.{set_repeat, move_upcoming, jump_to, enqueue}
use nice_audio_player.Playback.Worker.Types.{
  sample_rate_conversion_failed, decode_failed, by_jump, queue_item_not_found, owned_by_seek,
  queue_busy, owned_by_start, CompressedSourceError, PipelineOwner,
}
use nice_audio_player.Playback.Worker.Publish.{
  publish, publish_state, preferences_changed, queue_changed,
}
use nice_audio_player.Playback.Worker.State.{
  idle, asked, load_joined, refused, prefetch_source, loaded, shows_queue, loading_source, ready,
  loading, PlayableItem, Loaded, Prefetch, Transport, PrefetchState,
}
use nice_audio_player.Playback.Worker.Tracks.{emit, W, respond}
use nice_audio_player.Playback.Worker.Transport.{
  set_transport, is_loading, pause, discard_transport, answer_with,
}
use nice_audio_player.Playback.Worker.Seek.{begin_seek, finish_seek, finish_start}
use nice_audio_player.Playback.Worker.Failure.{stream_failed, decode_stopped, owner_of}
use nice_audio_player.Playback.Queue.Edit.{remove_upcoming, clear_upcoming}
use nice_audio_player.Playback.Worker.Failed.{settle, panic, Step}
use nice_audio_player.Playback.Worker.Start.{start_current, start_loaded}
use nice_audio_player.Playback.Worker.Commands.{
  PlaybackCommand, WorkerEvent, change_output_selection, clear_queue, conversion_failed,
  decode_stopped_event, enqueue_tracks, final_frames, move_queue_item, mute_volume, navigate, next,
  pause_playback, play_queue_item, prebuffer_ready, previous, remove_queue_item, restore_previous,
  resume_command, resume_playback, seek_to, select_output, set_muted, set_repeat_mode,
  set_shuffle_to, set_volume, set_volume_to, source_loaded, start, start_queue, stream_failed_event,
  unmute_volume, start_enqueued, restore_previous_queue,
}
use nice_audio_player.Playback.Worker.Prefetch.{revalidate_prefetch, prefetch_loaded}
use nice_audio_player.Playback.Queue.State.{
  current_entry, user_next, user_previous, panicked, err, ok, PlaybackQueue, Outcome,
}
use nice_audio_player.Playback.Worker.Outside.{Answered, Outside, Words}
use nice_audio_player.Prelude.{
  ◌==◌, ℕ, true, some, none, is_some, if◌then◌else◌, false, Option, Bool,
}

module _ {words : Words} (o : Outside words) where
  open words use {Source}

  -- What the answer of a queue command is, when the queue was edited: whether it changed.
  unfoldable pub queue_edited : Outcome PlaybackQueue Bool → ℕ → W o → W o
  unfolding queue_changed respond
  queue_edited panicked reply w = panic o w
  queue_edited (err e q) reply w =
      respond o (some reply) (refused queue_item_not_found) (record w { queue = q })
  queue_edited (ok changed q) reply w =
      let (published, w₁) = queue_changed o changed (record w { queue = q }) in
      respond o (some reply) (shows_queue published) w₁

  unfoldable pub edit_queue : Outcome PlaybackQueue Bool → ℕ → W o → W o
  unfolding queue_edited respond
  edit_queue edited reply w =
      if is_loading o w.transport
      then respond o (some reply) (refused queue_busy) w
      else queue_edited edited reply w

  -- `map(|()| true)`.
  abbrev pub always_changed : Outcome PlaybackQueue Unit → Outcome PlaybackQueue Bool
  always_changed (ok _ q) = ok true q
  always_changed (err e q) = err e q
  always_changed panicked = panicked

  -- A step that says whether it changed the queue: listeners learn it, and so do the preferences
  -- where the step changes one.
  unfoldable pub mode_changed : Bool → ℕ → W o → W o
  unfolding preferences_changed queue_changed respond
  mode_changed changed reply w =
      let w₁ = if changed then preferences_changed o w else w in
      let (published, w₂) = queue_changed o changed w₁ in
      respond o (some reply) (shows_queue published) w₂

  -- `set_shuffle` does not fail.
  unfoldable pub shuffle_changed : Step o Bool → ℕ → W o → W o
  unfolding mode_changed
  shuffle_changed panicked reply w = panic o w
  shuffle_changed (err e s) reply w = mode_changed false reply (settle o s w)
  shuffle_changed (ok changed s) reply w = mode_changed changed reply (settle o s w)

  unfoldable pub jumped : Outcome PlaybackQueue Unit → ℕ → W o → W o
  unfolding start_current respond
  jumped panicked reply w = panic o w
  jumped (err e q) reply w =
      respond o (some reply) (refused queue_item_not_found) (record w { queue = q })
  jumped (ok _ q) reply w = start_current o (some reply) false by_jump (record w { queue = q })

  unfoldable pub clear_queue_of : ℕ → W o → W o
  unfolding clear_upcoming queue_changed respond
  clear_queue_of reply w =
      let (changed, queue) = clear_upcoming w.queue in
      let before = if changed then some w.queue else w.previous_queue in
      let (published, w₁) =
        queue_changed o changed (record w { queue = queue; previous_queue = before }) in
      respond o (some reply) (shows_queue published) w₁

  unfoldable pub handle_command : PlaybackCommand words → W o → W o
  unfolding start_queue navigate pause resume_command begin_seek set_volume set_muted
      change_output_selection set_repeat mode_changed set_shuffle shuffle_changed edit_queue
      remove_upcoming move_upcoming jump_to jumped current_entry start_enqueued enqueue
      clear_queue_of restore_previous_queue
  handle_command (start track_ids start_index reply) w = start_queue o track_ids start_index reply w
  handle_command (previous reply) w = navigate o user_previous reply w
  handle_command (next reply) w = navigate o user_next reply w
  handle_command (pause_playback reply) w = answer_with o (some reply) (pause o w)
  handle_command (resume_playback reply) w = resume_command o reply w
  handle_command (seek_to position_ms reply) w = begin_seek o position_ms (some reply) w
  handle_command (set_volume_to volume reply) w = answer_with o (some reply) (set_volume o volume w)
  handle_command (mute_volume reply) w = answer_with o (some reply) (set_muted o true w)
  handle_command (unmute_volume reply) w = answer_with o (some reply) (set_muted o false w)
  handle_command (select_output selection reply) w = change_output_selection o selection reply w
  handle_command (set_repeat_mode mode reply) w =
      let (changed, queue) = set_repeat w.queue mode in
      mode_changed changed reply (record w { queue = queue })
  handle_command (set_shuffle_to enabled reply) w =
      shuffle_changed (set_shuffle (Outside.rand o) w.queue enabled w.gen) reply w
  handle_command (remove_queue_item id reply) w =
      edit_queue (always_changed (remove_upcoming w.queue id)) reply w
  handle_command (move_queue_item id to reply) w = edit_queue (move_upcoming w.queue id to) reply w
  handle_command (play_queue_item id reply) w =
      jumped (jump_to w.queue id) reply (record w { skipped_in_a_row = 0 })
  handle_command (enqueue_tracks track_ids after_current reply) w =
      if is_some (current_entry w.queue)
      then edit_queue (always_changed (enqueue w.queue track_ids after_current)) reply w
      else start_enqueued o track_ids reply w
  handle_command (clear_queue reply) w = clear_queue_of reply w
  handle_command (restore_previous reply) w = restore_previous_queue o reply w

  unfoldable pub load_of : Transport words → Option ℕ
  load_of (loading request (loading_source load)) = some load
  load_of _ = none

  abbrev prefetch_load_in : PrefetchState words → Option (ℕ × PlayableItem words)
  prefetch_load_in (prefetch_source load item) = some (load, item)
  prefetch_load_in _ = none

  -- The source arrives for the start that loads it, for the prefetch that loads it, or for
  -- nobody.
  unfoldable pub source_for_start :
      ℕ → Answered words Source CompressedSourceError → Transport words → W o → W o
  unfolding start_loaded
  source_for_start id result (loading request (loading_source load)) w =
      if load == id
      then start_loaded o request result (emit o (load_joined load) (set_transport o idle w))
      else w
  source_for_start id result _ w = w

  unfoldable pub source_for_prefetch :
      Loaded words
      → ℕ
      → PrefetchState words
      → ℕ
      → Answered words Source CompressedSourceError
      → W o
      → W o
  unfolding prefetch_loaded
  source_for_prefetch l entry_id (prefetch_source load item) id result w =
      if load == id
      then prefetch_loaded o l entry_id item result (emit o (load_joined load) w)
      else w
  source_for_prefetch l entry_id _ id result w = w

  unfoldable pub take_source :
      Transport words → ℕ → Answered words Source CompressedSourceError → W o → W o
  unfolding source_for_prefetch source_for_start
  take_source (loaded l) id result w = elim l.prefetch [
    | none ↦ w
    | some prefetch ↦ source_for_prefetch l prefetch.entry_id prefetch.state id result w
  ]
  take_source t id result w = source_for_start id result t w

  unfoldable pub ready_for : PipelineOwner → W o → W o
  unfolding finish_start finish_seek
  ready_for owned_by_start w = finish_start o w
  ready_for owned_by_seek w = finish_seek o w
  ready_for _ w = w

  unfoldable pub ends_state : PrefetchState words → ℕ → ℕ → PrefetchState words
  ends_state (ready track) pipeline end =
      let ended = record track { completion_time = some end } in
      ready (if track.pipeline == pipeline then ended else track)
  ends_state state pipeline end = state

  unfoldable pub ends_next : Option (Prefetch words) → ℕ → ℕ → Option (Prefetch words)
  unfolding ends_state
  ends_next none pipeline end = none
  ends_next (some prefetch) pipeline end =
      some (record prefetch { state = ends_state prefetch.state pipeline end })

  unfoldable pub ends_at : Transport words → ℕ → ℕ → W o → W o
  unfolding ends_next
  ends_at (loaded l) pipeline end w =
      let l₁ =
        if l.pipeline == pipeline
        then record l { completion_time = some end }
        else record l { prefetch = ends_next l.prefetch pipeline end } in
      set_transport o (loaded l₁) w
  ends_at _ pipeline end w = w

  unfoldable pub handle_event : WorkerEvent words → W o → W o
  unfolding take_source owner_of ready_for decode_stopped ends_at stream_failed
  handle_event (source_loaded id result) w = take_source w.transport id result w
  handle_event (prebuffer_ready pipeline) w = ready_for (owner_of o w.transport pipeline) w
  handle_event (decode_stopped_event pipeline) w = decode_stopped o pipeline decode_failed w
  handle_event (conversion_failed pipeline) w =
      decode_stopped o pipeline sample_rate_conversion_failed w
  handle_event (final_frames pipeline end) w = ends_at w.transport pipeline end w
  handle_event (stream_failed_event stream kind) w = stream_failed o stream kind w

  abbrev pub reply_of : PlaybackCommand words → ℕ
  reply_of (start track_ids start_index reply) = reply
  reply_of (previous reply) = reply
  reply_of (next reply) = reply
  reply_of (pause_playback reply) = reply
  reply_of (resume_playback reply) = reply
  reply_of (seek_to position_ms reply) = reply
  reply_of (set_volume_to volume reply) = reply
  reply_of (mute_volume reply) = reply
  reply_of (unmute_volume reply) = reply
  reply_of (select_output selection reply) = reply
  reply_of (set_repeat_mode mode reply) = reply
  reply_of (set_shuffle_to enabled reply) = reply
  reply_of (remove_queue_item id reply) = reply
  reply_of (move_queue_item id to reply) = reply
  reply_of (clear_queue reply) = reply
  reply_of (restore_previous reply) = reply
  reply_of (play_queue_item id reply) = reply
  reply_of (enqueue_tracks track_ids after_current reply) = reply

  -- A command comes with somebody who waits for the answer.
  unfoldable pub command : PlaybackCommand words → W o → W o
  unfolding handle_command revalidate_prefetch
  command c w = revalidate_prefetch o (handle_command c (emit o (asked (reply_of c)) w))

  unfoldable pub shutdown : W o → W o
  unfolding discard_transport publish_state
  shutdown w = publish o (discard_transport o w)

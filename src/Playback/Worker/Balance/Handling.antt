-- ===== src/Playback/Worker/Balance/Handling.antt =====
-- What the worker owes after each input (backend/src/audio/playback/worker.rs).
use nice_audio_player.Playback.Queue.Invariant.Moves.{jump_to-IsValid, move_upcoming-IsValid}
use nice_audio_player.Playback.Queue.Invariant.Removal.{remove_upcoming-IsValid}
use nice_audio_player.Playback.Queue.Edit.{remove_upcoming}
use nice_audio_player.Playback.Queue.Invariant.Shuffles.{set_shuffle-IsValid}
use nice_audio_player.Playback.Queue.Order.{set_shuffle}
use nice_audio_player.Playback.Queue.Invariant.Additions.{enqueue-IsValid, set_repeat-IsValid}
use nice_audio_player.Playback.Queue.Move.{enqueue, jump_to, move_upcoming, set_repeat}
use nice_audio_player.Playback.Worker.Balance.Choosing.{
  change_from-Settled, volume_changed-Settled, set_volume-Settled,
}
use nice_audio_player.Playback.Worker.Balance.Seeking.{begin_seek-Settled}
use nice_audio_player.Playback.Worker.Balance.Streaming.{stream_failed-Settled}
use nice_audio_player.Playback.Queue.State.{current_entry, user_next, user_previous}
use nice_audio_player.Playback.Worker.Balance.Queueing.{
  clear_queue_of-Settled, jumped-Settled, always_changed-Leaves, edit_queue-Settled,
  shuffle_changed-Settled, put_queue-Settled, mode_changed-Settled, start_queue-Settled,
}
use nice_audio_player.Playback.Worker.Balance.Running.{start_loaded-Settled}
use nice_audio_player.Playback.Worker.Balance.Ticking.{Apart-still}
use nice_audio_player.Playback.Worker.Balance.Commanding.{
  pause_from-Settled, answer_with-Settled, reloaded-Settled,
}
use nice_audio_player.Playback.Worker.Balance.Following.{
  prefetch_loaded-Settled, revalidate_from-Settled,
}
use nice_audio_player.Playback.Worker.Balance.Finishing.{
  finish_start_from-Settled, finish_seek_from-Settled,
}
use nice_audio_player.Playback.Worker.Balance.Stopping.{stopped_for-Settled, owner_of-Owned, Owned}
use nice_audio_player.Playback.Worker.Balance.Commands.{
  restore_from-Settled, start_enqueued-Settled, has_current, resume_command-Settled,
  navigate-Settled, HasRoom,
}
use nice_audio_player.Playback.Worker.Tracks.{emit, W}
use nice_audio_player.Playback.Worker.Types.{
  CompressedSourceError, PipelineOwner, decode_failed, gone, owned_by_active, owned_by_prefetch,
  owned_by_seek, owned_by_start, sample_rate_conversion_failed,
}
use nice_audio_player.Playback.Worker.Commands.{
  set_volume, PlaybackCommand, WorkerEvent, change_output_selection, clear_queue, conversion_failed,
  decode_stopped_event, enqueue_tracks, final_frames, move_queue_item, mute_volume, next,
  pause_playback, play_queue_item, prebuffer_ready, previous, remove_queue_item, restore_previous,
  restore_previous_queue, resume_playback, seek_to, select_output, set_muted, set_repeat_mode,
  set_shuffle_to, set_volume_to, source_loaded, start, stream_failed_event, unmute_volume,
}
use nice_audio_player.Playback.Worker.Prefetch.{revalidate_prefetch}
use nice_audio_player.Playback.Worker.Seek.{finish_start_from, finish_seek, finish_start}
use nice_audio_player.Playback.Worker.State.{
  Loaded, Prefetch, PrefetchState, PrefetchedTrack, Transport, asked, failed, idle, load_joined,
  loaded, loading, loading_source, prebuffering, prefetch_source, ready, unusable,
}
use nice_audio_player.Playback.Worker.Transport.{set_transport, pause}
use nice_audio_player.Playback.Worker.Handle.{
  always_changed, handle_event, command, ends_at, ends_next, ends_state, handle_command, ready_for,
  reply_of, source_for_prefetch, source_for_start, take_source,
}
use nice_audio_player.Playback.Worker.Balance.{
  held_prefetch, decode_token, held_seek, held_state, held, Apart, reply_token, Settled, Token,
}
use nice_audio_player.Playback.Worker.Outside.{Answered, Outside, Words}
use nice_audio_player.Prelude.{
  ◌&&◌, ◌≡◌, ◌==◌, ℕ, true, sym, subst, some, refl, is_some, inr, inl, if-cases, false, arith, ap,
  Option-cases,
}
use nice_audio_player.Playback.Worker.Failure.{decode_stopped, owner_of}

module _ {words : Words} (weigh : Token → ℕ) (o : Outside words) where
  pub ends_state-held :
      (state : PrefetchState words) (pipeline end : ℕ)
      → held_state weigh (ends_state o state pipeline end) ≡ held_state weigh state
  unfolding ends_state
  ends_state-held unusable pipeline end = refl
  ends_state-held (prefetch_source load item) pipeline end = refl
  ends_state-held (ready track) pipeline end =
      if-cases
        (λ (t : PrefetchedTrack words).
          weigh (decode_token t.pipeline) ≡ weigh (decode_token track.pipeline))
        (track.pipeline == pipeline) _ _ (λ _. refl) (λ _. refl)

  pub ends_next-held :
      (l : Loaded words) (pipeline end : ℕ)
      → held weigh (loaded (record l { prefetch = ends_next o l.prefetch pipeline end }))
        ≡ held weigh (loaded l)
  unfolding ends_next
  ends_next-held l pipeline end = elim (Option-cases l.prefetch) [
    | inl e ↦ rw (e, ends_next) refl
    | inr (prefetch, e) ↦
        rw (e, ends_next) (omega (arith, ends_state-held prefetch.state pipeline end))
  ]

  pub ends_next-Apart :
      (l : Loaded words) (pipeline end : ℕ)
      → Apart (loaded l)
      → Apart (loaded (record l { prefetch = ends_next o l.prefetch pipeline end }))
  unfolding ends_next
  ends_next-Apart l pipeline end a = elim (Option-cases l.prefetch) [
    | inl e ↦ rw (e, ends_next) (subst (λ p. (is_some l.seek && is_some p) ≡ false) e a)
    | inr (prefetch, e) ↦ rw (e, ends_next) (subst (λ p. (is_some l.seek && is_some p) ≡ false) e a)
  ]

module _ {words : Words} (weigh : Token → ℕ) {o : Outside words} where
  open words use {Source}

  pub handle_command-Settled :
      (c : PlaybackCommand words) (w : W o)
      → HasRoom w.queue c
      → Settled weigh o (weigh (reply_token (reply_of o c))) w
      → Settled weigh o 0 (handle_command o c w)
  unfolding handle_command pause set_muted change_output_selection restore_previous_queue
  handle_command-Settled (start track_ids start_index reply) w room s =
      start_queue-Settled weigh track_ids start_index reply w room s
  handle_command-Settled (previous reply) w room s = navigate-Settled weigh user_previous reply w s
  handle_command-Settled (next reply) w room s = navigate-Settled weigh user_next reply w s
  handle_command-Settled (pause_playback reply) w room s =
      answer_with-Settled weigh reply (pause o w) (pause_from-Settled weigh w.transport w _ refl s)
  handle_command-Settled (resume_playback reply) w room s = resume_command-Settled weigh reply w s
  handle_command-Settled (seek_to position_ms reply) w room s =
      begin_seek-Settled weigh position_ms (some reply) w s
  handle_command-Settled (set_volume_to volume reply) w room s =
      answer_with-Settled weigh reply (set_volume o volume w)
        (set_volume-Settled weigh volume w _ s)
  handle_command-Settled (mute_volume reply) w room s =
      answer_with-Settled weigh reply (set_muted o true w) (volume_changed-Settled weigh _ _ _ s)
  handle_command-Settled (unmute_volume reply) w room s =
      answer_with-Settled weigh reply (set_muted o false w) (volume_changed-Settled weigh _ _ _ s)
  handle_command-Settled (select_output selection reply) w room s =
      change_from-Settled weigh w.transport selection reply w s
  handle_command-Settled (set_repeat_mode mode reply) w room s =
      mode_changed-Settled weigh (set_repeat w.queue mode).0 reply
        (record w { queue = (set_repeat w.queue mode).1 })
        (put_queue-Settled weigh (set_repeat w.queue mode).1 w _
          (set_repeat-IsValid w.queue mode s.0.1.0) s)
  handle_command-Settled (set_shuffle_to enabled reply) w room s =
      shuffle_changed-Settled weigh (set_shuffle (Outside.rand o) w.queue enabled w.gen) reply w
        (set_shuffle-IsValid (Outside.rand o) w.queue enabled w.gen s.0.1.0) s
  handle_command-Settled (remove_queue_item id reply) w room s =
      edit_queue-Settled weigh (always_changed o (remove_upcoming w.queue id)) reply w
        (always_changed-Leaves o _ (remove_upcoming-IsValid w.queue id s.0.1.0)) s
  handle_command-Settled (move_queue_item id to reply) w room s =
      edit_queue-Settled weigh (move_upcoming w.queue id to) reply w
        (move_upcoming-IsValid w.queue id to s.0.1.0) s
  handle_command-Settled (play_queue_item id reply) w room s =
      jumped-Settled weigh (jump_to w.queue id) reply (record w { skipped_in_a_row = 0 })
        (jump_to-IsValid w.queue id s.0.1.0) s
  handle_command-Settled (enqueue_tracks track_ids after_current reply) w room s =
      if-cases (Settled weigh o 0) (is_some (current_entry w.queue)) _ _
        (λ e.
          edit_queue-Settled weigh (always_changed o (enqueue w.queue track_ids after_current))
            reply w
            (always_changed-Leaves o _ (
              enqueue-IsValid w.queue track_ids after_current s.0.1.0 room
                (λ _. has_current w.queue e s.0.1.0)))
            s)
        (λ _. start_enqueued-Settled weigh track_ids reply w room s)
  handle_command-Settled (clear_queue reply) w room s = clear_queue_of-Settled weigh reply w s
  handle_command-Settled (restore_previous reply) w room s =
      restore_from-Settled weigh w.previous_queue reply w s.0.1.1.0 s

  -- A command is answered, or its reply is held, exactly once: every reply, decode thread and load
  -- that was issued is settled or held by the transport, and only once. The queue and the previous
  -- queue stay valid, no step panics, and a seek in flight excludes a prefetch. All this holds of
  -- the worker after a command for whose tracks the queue has ids left, when it held before.
  pub command-Settled :
      (c : PlaybackCommand words) (w : W o)
      → HasRoom w.queue c
      → Settled weigh o 0 w
      → Settled weigh o 0 (command o c w)
  unfolding command revalidate_prefetch
  command-Settled c w room s =
      let w₁ = emit o (asked (reply_of o c)) w in
      let w₂ = handle_command o c w₁ in
      let s₁ : Settled weigh o (weigh (reply_token (reply_of o c))) w₁ =
        ((omega (arith, s.0.0), s.0.1), s.1) in
      revalidate_from-Settled weigh w₂.transport w₂ refl (handle_command-Settled c w₁ room s₁)

  pub source_for_start-Settled :
      (id : ℕ) (r : Answered words Source CompressedSourceError) (t : Transport words) (w : W o)
      → w.transport ≡ t
      → Settled weigh o 0 w
      → Settled weigh o 0 (source_for_start o id r t w)
  unfolding source_for_start
  source_for_start-Settled id r idle w at s = s
  source_for_start-Settled id r (loaded l) w at s = s
  source_for_start-Settled id r (failed playback code skipping) w at s = s
  source_for_start-Settled id r (loading request (prebuffering b)) w at s = s
  source_for_start-Settled id r (loading request (loading_source load)) w at s =
      if-cases (Settled weigh o 0) (load == id) _ _
        (λ _.
          start_loaded-Settled weigh request r (emit o (load_joined load) (set_transport o idle w))
            (omega (arith, s.0.0, ap (held weigh) at), s.0.1) refl)
        (λ _. s)

  pub source_for_prefetch-Settled :
      (l : Loaded words) (prefetch : Prefetch words) (state : PrefetchState words) (id : ℕ)
      → (r : Answered words Source CompressedSourceError) (w : W o) → w.transport ≡ loaded l
      → l.prefetch ≡ some prefetch
      → prefetch.state ≡ state
      → Settled weigh o 0 w
      → Settled weigh o 0 (source_for_prefetch o l prefetch.entry_id state id r w)
  unfolding source_for_prefetch
  source_for_prefetch-Settled l prefetch unusable id r w at e same s = s
  source_for_prefetch-Settled l prefetch (ready track) id r w at e same s = s
  source_for_prefetch-Settled l prefetch (prefetch_source load item) id r w at e same s =
      let still = Apart-still l prefetch (subst (λ t. Apart t) at s.1) e in
      if-cases (Settled weigh o 0) (load == id) _ _
        (λ _.
          prefetch_loaded-Settled weigh l prefetch.entry_id item r (emit o (load_joined load) w)
            still
            (
              omega (
                arith,
                s.0.0,
                ap (held weigh) at,
                ap (held_seek weigh) still,
                ap (held_prefetch weigh) e,
                ap (held_state weigh) same,
              ),
              s.0.1,
            ))
        (λ _. s)

  pub take_source-Settled :
      (t : Transport words) (id : ℕ) (r : Answered words Source CompressedSourceError) (w : W o)
      → w.transport ≡ t
      → Settled weigh o 0 w
      → Settled weigh o 0 (take_source o t id r w)
  unfolding take_source
  take_source-Settled idle id r w at s = source_for_start-Settled id r idle w at s
  take_source-Settled (loading request stage) id r w at s =
      source_for_start-Settled id r (loading request stage) w at s
  take_source-Settled (failed playback code skipping) id r w at s =
      source_for_start-Settled id r (failed playback code skipping) w at s
  take_source-Settled (loaded l) id r w at s = elim (Option-cases l.prefetch) [
    | inl e ↦ rw (e, take_source) s
    | inr (prefetch, e) ↦
        rw (e, take_source)
          (source_for_prefetch-Settled l prefetch prefetch.state id r w at e refl s)
  ]

  pub ready_for-Settled :
      (owner : PipelineOwner) (w : W o)
      → Owned owner w.transport
      → Settled weigh o 0 w
      → Settled weigh o 0 (ready_for o owner w)
  unfolding ready_for finish_start finish_seek
  ready_for-Settled owned_by_seek w h s = finish_seek_from-Settled weigh w.transport w refl s
  ready_for-Settled owned_by_active w h s = s
  ready_for-Settled owned_by_prefetch w h s = s
  ready_for-Settled gone w h s = s
  ready_for-Settled owned_by_start w (request, b, at) s =
      subst (λ t. Settled weigh o 0 (finish_start_from o t (set_transport o idle w))) (sym at)
        (finish_start_from-Settled weigh request b (set_transport o idle w)
          (omega (arith, s.0.0, ap (held weigh) at), s.0.1))

  pub ends_at-Settled :
      (t : Transport words) (pipeline end : ℕ) (w : W o)
      → w.transport ≡ t
      → Settled weigh o 0 w
      → Settled weigh o 0 (ends_at o t pipeline end w)
  unfolding ends_at
  ends_at-Settled idle pipeline end w at s = s
  ends_at-Settled (loading request stage) pipeline end w at s = s
  ends_at-Settled (failed playback code skipping) pipeline end w at s = s
  ends_at-Settled (loaded l) pipeline end w at s =
      if-cases (λ l₁. Settled weigh o 0 (set_transport o (loaded l₁) w)) (l.pipeline == pipeline) _
        _
        (λ _.
          reloaded-Settled weigh l (record l { completion_time = some end }) w 0 at refl (λ a. a) s)
        (λ _.
          reloaded-Settled weigh l (record l { prefetch = ends_next o l.prefetch pipeline end }) w 0
            at (ends_next-held weigh o l pipeline end) (ends_next-Apart weigh o l pipeline end) s)

  -- After an event of a thread every reply, decode thread and load that was issued is settled or
  -- held by the transport, and only once; the queues are valid, no step has panicked, and a seek in
  -- flight excludes a prefetch, when all this held before.
  pub handle_event-Settled :
      (e : WorkerEvent words) (w : W o)
      → Settled weigh o 0 w
      → Settled weigh o 0 (handle_event o e w)
  unfolding handle_event decode_stopped
  handle_event-Settled (source_loaded id r) w s = take_source-Settled w.transport id r w refl s
  handle_event-Settled (prebuffer_ready pipeline) w s =
      ready_for-Settled (owner_of o w.transport pipeline) w (owner_of-Owned o w.transport pipeline)
        s
  handle_event-Settled (decode_stopped_event pipeline) w s =
      stopped_for-Settled weigh (owner_of o w.transport pipeline) decode_failed w
        (owner_of-Owned o w.transport pipeline) s
  handle_event-Settled (conversion_failed pipeline) w s =
      stopped_for-Settled weigh (owner_of o w.transport pipeline) sample_rate_conversion_failed w
        (owner_of-Owned o w.transport pipeline) s
  handle_event-Settled (final_frames pipeline end) w s =
      ends_at-Settled w.transport pipeline end w refl s
  handle_event-Settled (stream_failed_event stream kind) w s =
      stream_failed-Settled weigh stream kind w s

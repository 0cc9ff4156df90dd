-- ===== src/Playback/Worker/Balance/Running.antt =====
-- What the start of a track, its end and a seek owe
-- (backend/src/audio/playback/worker/start.rs, progress.rs, seek.rs).
use nice_audio_player.Playback.Queue.Order.{advance}
use nice_audio_player.Playback.Queue.Invariant.Edits.{clear-IsValid}
use nice_audio_player.Playback.Worker.Balance.Starting.{respond-Settled}
use nice_audio_player.Playback.Worker.Balance.Reading.{
  publish_state-Settled, publish_queue-Kept, Kept-Settled, resolve_current-Kept,
}
use nice_audio_player.Playback.Queue.Edit.{clear}
use nice_audio_player.Playback.Worker.Balance.Failing.{
  fail_start-Settled, discard_transport-Settled, begin_start-Settled,
}
use nice_audio_player.Playback.Queue.Invariant.Shuffles.{Good}
use nice_audio_player.Playback.Worker.Transport.{discard_transport}
use nice_audio_player.Playback.Queue.Invariant.{IsValid, Leaves}
use nice_audio_player.Playback.Queue.Invariant.Advances.{advance-IsValid}
use nice_audio_player.Playback.Worker.Publish.{publish, publish_state, publish_queue}
use nice_audio_player.Playback.Worker.State.{shows, PlayableItem, refused, idle, StartRequest}
use nice_audio_player.Playback.Worker.Types.{
  file_metadata_failed, file_open_failed, source_metadata, source_open, track_unavailable,
  item_failure, invalid_playback_state, common, superseded, by_auto, load_was_cancelled,
  start_failure, PipelineError, CompressedSourceError, SessionStartedBy,
}
use nice_audio_player.Playback.Worker.Failed.{begin_start, settle, Resolved, Step, new_start}
use nice_audio_player.Playback.Worker.Tracks.{resolve_current, W}
use nice_audio_player.Playback.Queue.State.{
  panicked, ok, err, current_entry, natural, QueueEntry, PlaybackQueue,
}
use nice_audio_player.Playback.Worker.Start.{
  begin_prebuffering, advance_after_track, start_loaded, advanced, start_opened, start_resolved,
  start_current, after_track,
}
use nice_audio_player.Playback.Worker.Balance.{Sound, held_reply, Settled, Token}
use nice_audio_player.Playback.Worker.Outside.{
  bad, Opened, PreparedOutputConfig, good, Answered, Outside, Words,
}
use nice_audio_player.Prelude.{◌≡◌, ℕ, some, not, none, is_some, if-cases, arith, Option, Bool}
use nice_audio_player.Playback.Queue.Rand.{Rand}

module _ {words : Words} (weigh : Token → ℕ) {o : Outside words} where
  open words use {Source}

  -- The empty queue of a transport that was let go of, and what is published of it.
  pub cleared_queue-Settled :
      (w : W o) (in_hand : ℕ)
      → Settled weigh o in_hand w
      → Settled weigh o in_hand (
          publish_queue o
            (record (discard_transport o w) { queue = clear (discard_transport o w).queue }))
  cleared_queue-Settled w in_hand s =
      let w₁ = discard_transport o w in
      let (t, e) = discard_transport-Settled weigh w in_hand s in
      let w₂ = record w₁ { queue = clear w₁.queue } in
      Kept-Settled weigh w₂ (publish_queue o w₂) in_hand (publish_queue-Kept weigh w₂)
        ((t.0.0, (clear-IsValid w₁.queue t.0.1.0, t.0.1.1)), t.1)

  -- A new start has its reply in hand.
  pub new_start-Settled :
      (item : PlayableItem words) (by : SessionStartedBy) (responder : Option ℕ) (paused : Bool)
      → (w : W o) → Settled weigh o (held_reply weigh responder) w
      → Settled weigh o 0 (
          begin_start o
            (new_start o item by responder paused w).0
            (new_start o item by responder paused w).1)
  unfolding new_start
  new_start-Settled item by responder paused w s =
      let (request, w₁) = new_start o item by responder paused w in
      begin_start-Settled weigh request w₁ s

  pub publish_queue-Settled :
      (w : W o) (in_hand : ℕ)
      → Settled weigh o in_hand w
      → Settled weigh o in_hand (publish_queue o w)
  publish_queue-Settled w in_hand s =
      Kept-Settled weigh w (publish_queue o w) in_hand (publish_queue-Kept weigh w) s

  pub start_resolved-Settled :
      (r : Resolved o) (responder : Option ℕ) (paused : Bool) (by : SessionStartedBy) (w : W o)
      → Settled weigh o (held_reply weigh responder) w
      → Settled weigh o 0 (start_resolved o r responder paused by w)
  unfolding start_resolved
  start_resolved-Settled (good (some item)) responder paused by w s =
      new_start-Settled item by responder paused (publish_queue o w) (publish_queue-Settled w _ s)
  start_resolved-Settled (good none) responder paused by w s =
      let w₁ = discard_transport o w in
      let w₂ = publish_queue o (record w₁ { queue = clear w₁.queue }) in
      respond-Settled weigh responder (refused (common track_unavailable)) (publish o w₂)
        (publish_state-Settled weigh w₂ _ (cleared_queue-Settled w _ s))
  start_resolved-Settled (bad e) responder paused by w s =
      respond-Settled weigh responder (refused e) (publish_queue o w) (publish_queue-Settled w _ s)

  pub start_current-Settled :
      (responder : Option ℕ) (paused : Bool) (by : SessionStartedBy) (w : W o)
      → Settled weigh o (held_reply weigh responder) w
      → Settled weigh o 0 (start_current o responder paused by w)
  unfolding start_current
  start_current-Settled responder paused by w s =
      let (answer, w₁) = resolve_current o w in
      if-cases (Settled weigh o 0) (not (is_some (current_entry w.queue))) _ _
        (λ _. respond-Settled weigh responder (refused invalid_playback_state) w s)
        (λ _.
          start_resolved-Settled answer responder paused by w₁
            (Kept-Settled weigh w w₁ _ (resolve_current-Kept weigh w) s))

  pub start_opened-Settled :
      (request : StartRequest words) (source : Source) (stream pipeline : ℕ)
      → (a : Answered words (PreparedOutputConfig words × Opened words) PipelineError) (w : W o)
      → Sound weigh o (held_reply weigh request.responder) w
      → Settled weigh o 0 (start_opened o request source stream pipeline a w)
  unfolding start_opened
  start_opened-Settled request source stream pipeline (good (config, opened)) w s =
      ((omega (arith, s.0), s.1), tt)
  start_opened-Settled request source stream pipeline (bad e) w s =
      fail_start-Settled weigh request (start_failure e) w s

  pub start_loaded-Settled :
      (request : StartRequest words) (r : Answered words Source CompressedSourceError) (w : W o)
      → Sound weigh o (held_reply weigh request.responder) w
      → w.transport ≡ idle
      → Settled weigh o 0 (start_loaded o request r w)
  unfolding start_loaded begin_prebuffering
  start_loaded-Settled request (good source) w s e = start_opened-Settled request source _ _ _ _ s
  start_loaded-Settled request (bad load_was_cancelled) w s e =
      respond-Settled weigh request.responder (refused superseded) w
        (rw e ((omega (arith, s.0), s.1), tt))
  start_loaded-Settled request (bad file_open_failed) w s e =
      fail_start-Settled weigh request (item_failure source_open) w s
  start_loaded-Settled request (bad file_metadata_failed) w s e =
      fail_start-Settled weigh request (item_failure source_metadata) w s

  pub after_track-Settled :
      (r : Resolved o) (responder : Option ℕ) (paused : Bool) (w : W o)
      → Settled weigh o (held_reply weigh responder) w
      → Settled weigh o 0 (after_track o r responder paused w)
  unfolding after_track
  after_track-Settled (good (some item)) responder paused w s =
      let w₁ = record w { skipped_in_a_row = 0 } in
      new_start-Settled item by_auto responder paused (publish_queue o w₁)
        (publish_queue-Settled w₁ _ s)
  after_track-Settled (good none) responder paused w s =
      let w₁ = discard_transport o w in
      let w₂ = publish_queue o (record w₁ { queue = clear w₁.queue }) in
      respond-Settled weigh responder (shows (publish_state o w₂).0) (publish o w₂)
        (publish_state-Settled weigh w₂ _ (cleared_queue-Settled w _ s))
  after_track-Settled (bad e) responder paused w s =
      let w₁ = discard_transport o w in
      respond-Settled weigh responder _ _ (
        publish_state-Settled weigh _ _ (
          Kept-Settled weigh w₁ (publish_queue o w₁) _ (publish_queue-Kept weigh w₁)
            (discard_transport-Settled weigh w _ s).0))

  -- A step of the queue that leaves it valid changes nothing else.
  pub settle-Settled :
      (q : PlaybackQueue × Rand.Gen (Outside.rand o)) (w : W o) (in_hand : ℕ)
      → IsValid q.0
      → Settled weigh o in_hand w
      → Settled weigh o in_hand (settle o q w)
  settle-Settled q w in_hand v s = ((s.0.0, (v, s.0.1.1)), s.1)

  pub advanced-Settled :
      (s : Step o (Option QueueEntry)) (responder : Option ℕ) (paused : Bool) (w : W o)
      → Leaves (Good (Outside.rand o)) s
      → Settled weigh o (held_reply weigh responder) w
      → Settled weigh o 0 (advanced o s responder paused w)
  unfolding advanced
  advanced-Settled panicked responder paused w v s = absurd v
  advanced-Settled (err e q) responder paused w v s =
      after_track-Settled (good none) responder paused (settle o q w) (settle-Settled q w _ v s)
  advanced-Settled (ok none q) responder paused w v s =
      after_track-Settled (good none) responder paused (settle o q w) (settle-Settled q w _ v s)
  advanced-Settled (ok (some entry) q) responder paused w v s =
      let w₁ = settle o q w in
      let (answer, w₂) = resolve_current o w₁ in
      after_track-Settled answer responder paused w₂
        (Kept-Settled weigh w₁ w₂ _ (resolve_current-Kept weigh w₁) (settle-Settled q w _ v s))

  pub advance_after_track-Settled :
      (responder : Option ℕ) (paused : Bool) (w : W o)
      → Settled weigh o (held_reply weigh responder) w
      → Settled weigh o 0 (advance_after_track o responder paused w)
  unfolding advance_after_track
  advance_after_track-Settled responder paused w s =
      advanced-Settled (advance (Outside.rand o) w.queue natural w.gen) responder paused w
        (advance-IsValid (Outside.rand o) w.queue natural w.gen s.0.1.0) s

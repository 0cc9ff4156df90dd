-- ===== src/Playback/Worker/Balance/Finishing.antt =====
-- What the end of a prebuffer owes, for a seek and for a start
-- (backend/src/audio/playback/worker/seek.rs, start.rs).
use nice_audio_player.Playback.Worker.Transport.{shown, answer_with}
use nice_audio_player.Playback.Worker.Balance.Failing.{fail_start-Settled}
use nice_audio_player.Playback.Worker.Balance.Starting.{respond-Settled}
use nice_audio_player.Playback.Worker.Balance.Seeking.{begin_seek-Settled}
use nice_audio_player.Playback.Worker.Balance.Reading.{publish_state-Settled, Kept}
use nice_audio_player.Playback.Worker.Types.{
  output_failure_code, stream_start, AudioOutputError, AudioOutputSelection,
}
use nice_audio_player.Playback.Worker.Tracks.{emit, W}
use nice_audio_player.Playback.Worker.State.{
  shows, pipeline_cancelled, prebuffering, idle, failed, loaded, loading, Prebuffering,
  SeekInFlight, StartRequest, Loaded, Transport,
}
use nice_audio_player.Playback.Worker.Publish.{publish, publish_state, preferences_changed}
use nice_audio_player.Playback.Worker.Seek.{
  switched, started, finish_seek_from, stream_started, switch_to, select_started, resume_at,
  start_finished, finish_start_from,
}
use nice_audio_player.Playback.Worker.Balance.{
  held_seek, held_reply, held, decode_token, Sound, Settled, Token,
}
use nice_audio_player.Playback.Worker.Outside.{Outside, Words}
use nice_audio_player.Prelude.{◌≡◌, ◌+◌, ℕ, some, refl, none, if-cases, arith, ap, Option}

module _ {words : Words} (weigh : Token → ℕ) {o : Outside words} where
  pub switched-Settled :
      (l : Loaded words) (seek : SeekInFlight words) (w : W o)
      → w.transport ≡ loaded l
      → l.seek ≡ some seek
      → Settled weigh o 0 w
      → Settled weigh o (held_reply weigh seek.responder) (switched o l seek w)
  unfolding switched
  switched-Settled l seek w at e s =
      ((omega (arith, s.0.0, ap (held weigh) at, ap (held_seek weigh) e), s.0.1), refl)

  pub switch_to-Settled :
      (l : Loaded words) (seek : Option (SeekInFlight words)) (w : W o)
      → w.transport ≡ loaded l
      → l.seek ≡ seek
      → Settled weigh o 0 w
      → Settled weigh o 0 (switch_to o l seek w)
  unfolding switch_to
  switch_to-Settled l none w at e s = s
  switch_to-Settled l (some seek) w at e s =
      let w₁ = switched o l seek w in
      respond-Settled weigh seek.responder (shows (publish_state o w₁).0) (publish o w₁)
        (publish_state-Settled weigh w₁ _ (switched-Settled l seek w at e s))

  pub finish_seek_from-Settled :
      (t : Transport words) (w : W o)
      → w.transport ≡ t
      → Settled weigh o 0 w
      → Settled weigh o 0 (finish_seek_from o t w)
  unfolding finish_seek_from
  finish_seek_from-Settled idle w at s = s
  finish_seek_from-Settled (loading request stage) w at s = s
  finish_seek_from-Settled (failed id code skipping) w at s = s
  finish_seek_from-Settled (loaded l) w at s = switch_to-Settled l l.seek w at refl s

  pub select_started-Kept :
      (selection : Option (AudioOutputSelection (Words.Text words))) (w : W o)
      → Kept weigh w (select_started o selection w)
  unfolding select_started preferences_changed
  select_started-Kept none w = (refl, λ owed s. s)
  select_started-Kept (some selection) w = (refl, λ owed s. s)

  pub resume_at-Settled :
      (at_ms : Option ℕ) (w : W o) → Settled weigh o 0 w → Settled weigh o 0 (resume_at o at_ms w)
  unfolding resume_at
  resume_at-Settled none w s = s
  resume_at-Settled (some position_ms) w s = begin_seek-Settled weigh position_ms none w s

  pub started-Settled :
      (request : StartRequest words) (b : Prebuffering words) (w : W o)
      → Sound weigh o (weigh (decode_token b.pipeline) + held_reply weigh request.responder) w
      → Settled weigh o (held_reply weigh request.responder) (started o request b w)
  unfolding started
  started-Settled request b w s =
      let chosen = (select_started-Kept request.selection w).1 _ s in
      ((omega (arith, chosen.0), chosen.1), refl)

  pub start_finished-Settled :
      (request : StartRequest words) (b : Prebuffering words) (w : W o)
      → Sound weigh o (weigh (decode_token b.pipeline) + held_reply weigh request.responder) w
      → Settled weigh o 0 (start_finished o request b w)
  unfolding start_finished
  start_finished-Settled request b w s =
      let w₁ = started o request b w in
      let answered_ = answer_with o request.responder (shown o (publish_state o w₁)) in
      resume_at-Settled request.resume_at_ms answered_ (
        respond-Settled weigh request.responder (shows (publish_state o w₁).0) (publish o w₁)
          (publish_state-Settled weigh w₁ _ (started-Settled request b w s)))

  pub stream_started-Settled :
      (request : StartRequest words) (b : Prebuffering words) (failure : Option AudioOutputError)
      → (w : W o)
      → Sound weigh o (weigh (decode_token b.pipeline) + held_reply weigh request.responder) w
      → Settled weigh o 0 (stream_started o request b failure w)
  unfolding stream_started
  stream_started-Settled request b none w s = start_finished-Settled request b w s
  stream_started-Settled request b (some e) w s =
      fail_start-Settled weigh request
        (record { phase = stream_start; code = output_failure_code e })
        (emit o (pipeline_cancelled b.pipeline) w) (omega (arith, s.0), s.1)

  -- The start that prebuffers is what the transport holds.
  pub finish_start_from-Settled :
      (request : StartRequest words) (b : Prebuffering words) (w : W o)
      → Sound weigh o (held weigh (loading request (prebuffering b))) w
      → Settled weigh o 0 (finish_start_from o (loading request (prebuffering b)) w)
  unfolding finish_start_from
  finish_start_from-Settled request b w s =
      let owed : Sound weigh o
          (weigh (decode_token b.pipeline) + held_reply weigh request.responder) w =
        (omega (arith, s.0), s.1) in
      if-cases (Settled weigh o 0) request.start_paused _ _
        (λ _. start_finished-Settled request b w owed)
        (λ _. stream_started-Settled request b _ _ owed)

-- ===== src/Playback/Worker/Balance/Streaming.antt =====
-- What a stream that failed owes (backend/src/audio/playback/worker/failure.rs).
use nice_audio_player.Playback.Worker.Balance.Reading.{publish_state-Settled}
use nice_audio_player.Playback.Worker.Balance.Stopping.{fail_active-Settled}
use nice_audio_player.Playback.Worker.Transport.{set_transport}
use nice_audio_player.Playback.Worker.Balance.Seeking.{cancel_seek-Settled, drop_seek-transport}
use nice_audio_player.Playback.Worker.Tracks.{W}
use nice_audio_player.Playback.Worker.Types.{
  preserve_playback, refresh_default_device_action, fail_action, system_default, system_default,
  output_device_unavailable, output_error, output_scope, fail_action, stream_signal_action,
  DeviceResolutionError, StreamSignalAction, PlaybackServiceError, StreamFailureKind,
  PlaybackFailureCode,
}
use nice_audio_player.Playback.Worker.Seek.{cancel_seek_from, cancel_seek}
use nice_audio_player.Playback.Worker.Failure.{
  on_device, refresh_default_device, act_on_stream, refreshed, plays_on, stream_failed, fail_output,
}
use nice_audio_player.Playback.Worker.State.{idle, failed, loading, loaded, Loaded, Transport}
use nice_audio_player.Playback.Worker.Balance.{Apart, held, Settled, Token}
use nice_audio_player.Playback.Worker.Outside.{
  good, bad, AudioOutputDeviceIdentity, Answered, Outside, Words,
}
use nice_audio_player.Prelude.{◌≡◌, ℕ, true, subst, refl, none, if-cases, false, arith, ap}

-- A track is loaded.
abbrev pub Playing : {words : Words} → Transport words → Type 0
Playing {words} t = (l : Loaded words) × (t ≡ loaded l)

module _ {words : Words} (o : Outside words) where
  pub plays_on-Playing : (t : Transport words) (stream : ℕ) → plays_on o t stream ≡ true → Playing t
  plays_on-Playing (loaded l) stream e = (l, refl)
  plays_on-Playing idle stream e = cc
  plays_on-Playing (loading request stage) stream e = cc
  plays_on-Playing (failed id code skipping) stream e = cc

module _ {words : Words} (weigh : Token → ℕ) {o : Outside words} where
  pub refreshed-Settled :
      (t : Transport words)
      → (a : Answered words (AudioOutputDeviceIdentity words) DeviceResolutionError) (w : W o)
      → w.transport ≡ t
      → Settled weigh o 0 w
      → Settled weigh o 0 (refreshed o t a w).1
  unfolding refreshed
  refreshed-Settled idle a w at s = s
  refreshed-Settled (loading request stage) a w at s = s
  refreshed-Settled (failed id code skipping) a w at s = s
  refreshed-Settled (loaded l) (bad e) w at s = s
  refreshed-Settled (loaded l) (good identity) w at s =
      publish_state-Settled weigh (set_transport o (loaded (on_device o identity l)) w) 0
        ((omega (arith, s.0.0, ap (held weigh) at), s.0.1), subst (λ t. Apart t) at s.1)

  pub refreshed-Playing :
      (t : Transport words)
      → (a : Answered words (AudioOutputDeviceIdentity words) DeviceResolutionError) (w : W o)
      → Playing w.transport
      → (refreshed o t a w).0 ≡ false
      → Playing (refreshed o t a w).1.transport
  unfolding refreshed
  refreshed-Playing idle a w p e = p
  refreshed-Playing (loading request stage) a w p e = p
  refreshed-Playing (failed id code skipping) a w p e = p
  refreshed-Playing (loaded l) (bad failure) w p e = p
  refreshed-Playing (loaded l) (good identity) w p e = cc

  pub cancel_seek-Playing :
      (e : PlaybackServiceError) (w : W o)
      → Playing w.transport
      → Playing (cancel_seek o e w).transport
  unfolding cancel_seek cancel_seek_from
  cancel_seek-Playing e w (l, at) =
      let l₁ = record l { seek = none } in
      (
        l₁,
        rw (at, cancel_seek_from)
            (drop_seek-transport weigh l.seek e (set_transport o (loaded l₁) w)),
      )

  pub fail_output-Settled :
      (code : PlaybackFailureCode) (w : W o)
      → Playing w.transport
      → Settled weigh o 0 w
      → Settled weigh o 0 (fail_output o code w)
  unfolding fail_output
  fail_output-Settled code w (l, at) s =
      fail_active-Settled weigh l code output_scope (output_error code) w at s

  pub act_on_stream-Settled :
      (action : StreamSignalAction) (w : W o)
      → Playing w.transport
      → Settled weigh o 0 w
      → Settled weigh o 0 (act_on_stream o action w)
  unfolding act_on_stream refresh_default_device
  act_on_stream-Settled preserve_playback w p s = s
  act_on_stream-Settled (fail_action code) w p s = fail_output-Settled code w p s
  act_on_stream-Settled refresh_default_device_action w p s =
      let w₁ = cancel_seek o (output_error output_device_unavailable) w in
      let (s₁, still) = cancel_seek-Settled weigh (output_error output_device_unavailable) w 0 s in
      let p₁ = cancel_seek-Playing (output_error output_device_unavailable) w p in
      let (answer, world) = Outside.resolve_device o system_default w₁.world in
      let w₂ = record w₁ { world = world } in
      let (recovered, w₃) = refreshed o w₂.transport answer w₂ in
      let s₃ = refreshed-Settled w₂.transport answer w₂ refl s₁ in
      if-cases (Settled weigh o 0) recovered _ _ (λ _. s₃)
        (λ e.
          fail_output-Settled output_device_unavailable w₃
            (refreshed-Playing w₂.transport answer w₂ p₁ e) s₃)

  pub stream_failed-Settled :
      (stream : ℕ) (kind : StreamFailureKind) (w : W o)
      → Settled weigh o 0 w
      → Settled weigh o 0 (stream_failed o stream kind w)
  unfolding stream_failed
  stream_failed-Settled stream kind w s =
      if-cases (Settled weigh o 0) (plays_on o w.transport stream) _ _
        (λ e.
          act_on_stream-Settled (stream_signal_action w.output_selection kind) w
            (plays_on-Playing o w.transport stream e) s)
        (λ _. s)

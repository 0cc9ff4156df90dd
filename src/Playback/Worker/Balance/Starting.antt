-- ===== src/Playback/Worker/Balance/Starting.antt =====
-- What a start owes, from the queue's item to the failure of it
-- (backend/src/audio/playback/worker/transport.rs, start.rs, failure.rs).
use nice_audio_player.Playback.Worker.Types.{superseded, PlaybackServiceError}
use nice_audio_player.Playback.Worker.State.{
  idle, prebuffering, loading_source, unusable, loading, pipeline_cancelled, ready, loaded,
  prefetch_source, failed, Transport, Prefetch, Loaded, PrefetchState, SeekInFlight, Answer,
}
use nice_audio_player.Playback.Worker.Transport.{
  cancel_stage, drop_prefetch, cancel_prefetched, let_go, drop_seek, discard,
}
use nice_audio_player.Playback.Worker.Tracks.{emit, W, respond}
use nice_audio_player.Playback.Worker.Balance.{
  decode_token, held_seek, held_prefetch, held, held_state, held_reply, Sound, Settled, Token,
}
use nice_audio_player.Playback.Worker.Outside.{Outside, Words}
use nice_audio_player.Prelude.{◌≡◌, ◌+◌, ℕ, some, refl, none, arith, Option}

module _ {words : Words} (weigh : Token → ℕ) {o : Outside words} where
  pub respond-Sound :
      (reply : Option ℕ) (a : Answer words) (w : W o) (owed : ℕ)
      → Sound weigh o (owed + held_reply weigh reply) w
      → Sound weigh o owed (respond o reply a w)
  unfolding respond
  respond-Sound none a w owed s = (omega (arith, s.0), s.1)
  respond-Sound (some reply) a w owed s = (omega (arith, s.0), s.1)

  pub respond-transport :
      (reply : Option ℕ) (a : Answer words) (w : W o)
      → (respond o reply a w).transport ≡ w.transport
  unfolding respond
  respond-transport none a w = refl
  respond-transport (some reply) a w = refl

  pub respond-Settled :
      (reply : Option ℕ) (a : Answer words) (w : W o)
      → Settled weigh o (held_reply weigh reply) w
      → Settled weigh o 0 (respond o reply a w)
  respond-Settled reply a w s =
      rw (respond-transport reply a w)
        (respond-Sound reply a w (held weigh w.transport + 0) (omega (arith, s.0.0), s.0.1), s.1)

  pub cancel_prefetched-Sound :
      (state : PrefetchState words) (w : W o) (owed : ℕ)
      → Sound weigh o (owed + held_state weigh state) w
      → Sound weigh o owed (cancel_prefetched o state w)
  unfolding cancel_prefetched
  cancel_prefetched-Sound (prefetch_source load item) w owed s = (omega (arith, s.0), s.1)
  cancel_prefetched-Sound (ready next) w owed s = (omega (arith, s.0), s.1)
  cancel_prefetched-Sound unusable w owed s = (omega (arith, s.0), s.1)

  pub drop_prefetch-Sound :
      (prefetch : Option (Prefetch words)) (w : W o) (owed : ℕ)
      → Sound weigh o (owed + held_prefetch weigh prefetch) w
      → Sound weigh o owed (drop_prefetch o prefetch w)
  unfolding drop_prefetch
  drop_prefetch-Sound none w owed s = (omega (arith, s.0), s.1)
  drop_prefetch-Sound (some prefetch) w owed s = cancel_prefetched-Sound prefetch.state w owed s

  pub drop_seek-Sound :
      (seek : Option (SeekInFlight words)) (e : PlaybackServiceError) (w : W o) (owed : ℕ)
      → Sound weigh o (owed + held_seek weigh seek) w
      → Sound weigh o owed (drop_seek o seek e w)
  unfolding drop_seek
  drop_seek-Sound none e w owed s = (omega (arith, s.0), s.1)
  drop_seek-Sound (some seek) e w owed s =
      respond-Sound seek.responder _ (emit o (pipeline_cancelled seek.pipeline) w) owed
        (omega (arith, s.0), s.1)

  pub let_go-Sound :
      (l : Loaded words) (e : PlaybackServiceError) (w : W o) (owed : ℕ)
      → Sound weigh o (owed + held weigh (loaded l)) w
      → Sound weigh o owed (let_go o l e w)
  unfolding let_go
  let_go-Sound l e w owed s =
      let decode = weigh (decode_token l.pipeline) in
      let prefetched = held_prefetch weigh l.prefetch in
      let sought =
        drop_seek-Sound l.seek e w (owed + decode + prefetched) (omega (arith, s.0), s.1) in
      let fetched = drop_prefetch-Sound l.prefetch _ (owed + decode) sought in
      (omega (arith, fetched.0), fetched.1)

  pub discard-Sound :
      (t : Transport words) (w : W o) (owed : ℕ)
      → Sound weigh o (owed + held weigh t) w
      → Sound weigh o owed (discard o t w)
  unfolding discard cancel_stage
  discard-Sound idle w owed s = (omega (arith, s.0), s.1)
  discard-Sound (failed id code skipping) w owed s = (omega (arith, s.0), s.1)
  discard-Sound (loaded l) w owed s = let_go-Sound l superseded w owed s
  discard-Sound (loading request (loading_source load)) w owed s =
      respond-Sound request.responder _ _ owed (omega (arith, s.0), s.1)
  discard-Sound (loading request (prebuffering b)) w owed s =
      respond-Sound request.responder _ _ owed (omega (arith, s.0), s.1)

  pub discard-transport : (t : Transport words) (w : W o) → (discard o t w).transport ≡ w.transport
  unfolding discard cancel_stage let_go drop_seek drop_prefetch cancel_prefetched respond
  discard-transport t w = ground arith

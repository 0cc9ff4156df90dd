-- ===== src/Playback/Worker/Balance/Keeping.antt =====
-- A reply that the worker keeps in hand while a step runs
-- (backend/src/audio/playback/worker/start.rs, `start_enqueued`).
use nice_audio_player.Playback.Worker.Tracks.{W}
use nice_audio_player.Playback.Worker.State.{Transport, Event}
use nice_audio_player.Playback.Worker.Outside.{Outside, Words}
use nice_audio_player.Playback.Worker.Balance.{
  kept_token, Settled, load_token, decode_token, issued, held, settled, reply_token, Token,
}
use nice_audio_player.Prelude.{◌≡◌, ◌∷◌, ◌+◌, ℕ, refl, arith, [], List}

-- The same weights, but for what is kept in hand.
abbrev pub keeping : (Token → ℕ) → ℕ → Token → ℕ
keeping weigh n (reply_token reply) = weigh (reply_token reply)
keeping weigh n (decode_token pipeline) = weigh (decode_token pipeline)
keeping weigh n (load_token load) = weigh (load_token load)
keeping weigh n kept_token = n + weigh kept_token

module _ {words : Words} (weigh : Token → ℕ) (n : ℕ) where
  held-keeping : (t : Transport words) → held (keeping weigh n) t ≡ held weigh t
  held-keeping t = ground arith

  issued-keeping : (log : List (Event words)) → issued (keeping weigh n) log ≡ issued weigh log
  issued-keeping [] = refl
  issued-keeping (e ∷ log) = ground (arith, issued-keeping log)

  settled-keeping :
      (log : List (Event words)) → settled (keeping weigh n) log ≡ n + settled weigh log
  settled-keeping [] = refl
  settled-keeping (e ∷ log) = ground (arith, settled-keeping log)

  pub keeping-Settled :
      {o : Outside words} (w : W o) → Settled weigh o n w → Settled (keeping weigh n) o 0 w
  keeping-Settled w s = (
    (
      omega (arith, s.0.0, held-keeping w.transport, issued-keeping w.log, settled-keeping w.log),
      s.0.1,
    ),
    s.1,
  )

  pub Settled-keeping :
      {o : Outside words} (w : W o) → Settled (keeping weigh n) o 0 w → Settled weigh o n w
  Settled-keeping w s = (
    (
      omega (arith, s.0.0, held-keeping w.transport, issued-keeping w.log, settled-keeping w.log),
      s.0.1,
    ),
    s.1,
  )

-- ===== src/Playback/Worker/Balance/Commanding.antt =====
-- What the commands of callers owe
-- (backend/src/audio/playback/worker.rs, worker/start.rs, worker/transport.rs,
-- worker/preferences.rs).
use nice_audio_player.Playback.Worker.Balance.Starting.{let_go-Sound, respond-Settled}
use nice_audio_player.Playback.Worker.Balance.Reading.{
  playback_versioned-Same, Same-Kept, publish_state-Settled, Kept-Settled,
}
use nice_audio_player.Playback.Worker.Publish.{at_frame, playback_versioned, sample_position}
use nice_audio_player.Playback.Worker.Types.{output_failure_code, superseded, AudioOutputError}
use nice_audio_player.Playback.Worker.Tracks.{emit, W}
use nice_audio_player.Playback.Worker.State.{
  idle, timing_cleared, loading, failed, Transport, loaded, Loaded, Answer,
}
use nice_audio_player.Playback.Worker.Transport.{
  set_transport, answer_with, drop_loaded_from, resume_error, drop_loaded, pause_from,
  stream_resumed, control_failure, stream_paused, resume_from,
}
use nice_audio_player.Playback.Worker.Balance.{Sound, Apart, reply_token, held, Settled, Token}
use nice_audio_player.Playback.Worker.Outside.{Outside, Words}
use nice_audio_player.Prelude.{
  ◌≡◌, ◌+◌, ℕ, true, sym, subst, some, refl, not, none, if-cases, false, arith, ap, Option,
}

module _ {words : Words} (weigh : Token → ℕ) {o : Outside words} where
  open words use {Text, Volume}

  -- An answer and the worker that it was drawn from.
  pub answer_with-Settled :
      (reply : ℕ) (a : Answer words × W o)
      → Settled weigh o (weigh (reply_token reply)) a.1
      → Settled weigh o 0 (answer_with o (some reply) a)
  answer_with-Settled reply a s = respond-Settled weigh (some reply) a.0 a.1 s

  pub playback_versioned-Settled :
      (w : W o) (in_hand : ℕ)
      → Settled weigh o in_hand w
      → Settled weigh o in_hand (playback_versioned o w).1
  playback_versioned-Settled w in_hand s =
      let w₁ = (playback_versioned o w).1 in
      Kept-Settled weigh w w₁ in_hand (Same-Kept weigh w w₁ (playback_versioned-Same weigh w)) s

  pub control_failure-Settled :
      (l : Loaded words) (e : AudioOutputError) (w : W o) (in_hand : ℕ)
      → w.transport ≡ loaded l
      → Settled weigh o in_hand w
      → Settled weigh o in_hand (control_failure o e w).1
  unfolding control_failure drop_loaded drop_loaded_from
  control_failure-Settled l e w in_hand at s =
      let (id, w₁) = drop_loaded o superseded w in
      let w₀ = set_transport o idle w in
      let owed : Sound weigh o (in_hand + held weigh (loaded l)) w₀ =
        (omega (arith, s.0.0, ap (held weigh) at), s.0.1) in
      let dropped : Sound weigh o in_hand w₁ =
        subst (λ t. Sound weigh o in_hand (drop_loaded_from o t superseded w₀).1) (sym at)
          (let_go-Sound weigh l superseded w₀ in_hand owed) in
      publish_state-Settled weigh (set_transport o (failed id (output_failure_code e) false) w₁)
        in_hand ((omega (arith, dropped.0), dropped.1), tt)

  -- A loaded track that changes in what it does not hold.
  pub reloaded-Settled :
      (l l₁ : Loaded words) (w : W o) (in_hand : ℕ)
      → w.transport ≡ loaded l
      → held weigh (loaded l₁) ≡ held weigh (loaded l)
      → (Apart (loaded l) → Apart (loaded l₁))
      → Settled weigh o in_hand w
      → Settled weigh o in_hand (set_transport o (loaded l₁) w)
  reloaded-Settled l l₁ w in_hand at e h s =
      ((omega (arith, s.0.0, ap (held weigh) at, e), s.0.1), h (subst (λ t. Apart t) at s.1))

  pub stream_paused-Settled :
      (l : Loaded words) (e : Option AudioOutputError) (w : W o) (in_hand : ℕ)
      → w.transport ≡ loaded l
      → Settled weigh o in_hand w
      → Settled weigh o in_hand (stream_paused o l e w).1
  unfolding stream_paused sample_position
  stream_paused-Settled l (some e) w in_hand at s = control_failure-Settled l e w in_hand at s
  stream_paused-Settled l none w in_hand at s =
      let (frame, w₁) = sample_position o l w in
      let w₂ = emit o timing_cleared w₁ in
      let l₁ = record (at_frame o l frame) { paused = true } in
      publish_state-Settled weigh (set_transport o (loaded l₁) w₂) in_hand
        (reloaded-Settled l l₁ w₂ in_hand at refl (λ a. a) s)

  pub pause_from-Settled :
      (t : Transport words) (w : W o) (in_hand : ℕ)
      → w.transport ≡ t
      → Settled weigh o in_hand w
      → Settled weigh o in_hand (pause_from o t w).1
  unfolding pause_from
  pause_from-Settled idle w in_hand at s = s
  pause_from-Settled (failed id code skipping) w in_hand at s = s
  pause_from-Settled (loading request stage) w in_hand at s =
      let request₁ = record request { start_paused = true } in
      playback_versioned-Settled (set_transport o (loading request₁ stage) w) in_hand
        ((omega (arith, s.0.0, ap (held weigh) at), s.0.1), tt)
  pause_from-Settled (loaded l) w in_hand at s =
      let (failure, world) = Outside.pause_stream o l.output.id w.world in
      if-cases (λ (p : Answer words × W o). Settled weigh o in_hand p.1) l.paused _ _
        (λ _. playback_versioned-Settled w in_hand s)
        (λ _. stream_paused-Settled l failure (record w { world = world }) in_hand at s)

  pub stream_resumed-Settled :
      (l : Loaded words) (e : Option AudioOutputError) (w : W o) (in_hand : ℕ)
      → w.transport ≡ loaded l
      → Settled weigh o in_hand w
      → Settled weigh o in_hand (stream_resumed o l e w).1
  unfolding stream_resumed
  stream_resumed-Settled l (some e) w in_hand at s =
      control_failure-Settled l (resume_error o e) w in_hand at s
  stream_resumed-Settled l none w in_hand at s =
      let l₁ = record l { paused = false } in
      publish_state-Settled weigh (set_transport o (loaded l₁) w) in_hand
        (reloaded-Settled l l₁ w in_hand at refl (λ a. a) s)

  pub resume_from-Settled :
      (t : Transport words) (w : W o) (in_hand : ℕ)
      → w.transport ≡ t
      → Settled weigh o in_hand w
      → Settled weigh o in_hand (resume_from o t w).1
  unfolding resume_from
  resume_from-Settled idle w in_hand at s = s
  resume_from-Settled (failed id code skipping) w in_hand at s = s
  resume_from-Settled (loading request stage) w in_hand at s =
      let request₁ = record request { start_paused = false } in
      playback_versioned-Settled (set_transport o (loading request₁ stage) w) in_hand
        ((omega (arith, s.0.0, ap (held weigh) at), s.0.1), tt)
  resume_from-Settled (loaded l) w in_hand at s =
      let (failure, world) = Outside.start_stream o l.output.id w.world in
      if-cases (λ (p : Answer words × W o). Settled weigh o in_hand p.1) (not l.paused) _ _
        (λ _. playback_versioned-Settled w in_hand s)
        (λ _. stream_resumed-Settled l failure (record w { world = world }) in_hand at s)

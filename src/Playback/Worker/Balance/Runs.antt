-- ===== src/Playback/Worker/Balance/Runs.antt =====
-- Every worker that inputs lead to (backend/src/audio/playback/worker.rs, `new`, `run`, `handle`
-- and `shutdown`).
use nice_audio_player.Playback.Worker.Balance.Ticking.{tick-Settled}
use nice_audio_player.Playback.Worker.Balance.Handling.{handle_event-Settled, command-Settled}
use nice_audio_player.Playback.Worker.Progress.{tick}
use nice_audio_player.Playback.Worker.Balance.Reading.{publish_state-held, publish_state-Settled}
use nice_audio_player.Playback.Worker.Transport.{discard_transport}
use nice_audio_player.Playback.Worker.Balance.Commands.{HasRoom}
use nice_audio_player.Playback.Worker.Balance.Failing.{discard_transport-Settled}
use nice_audio_player.Playback.Worker.Commands.{WorkerEvent, PlaybackCommand}
use nice_audio_player.Playback.Queue.Invariant.{IsValid}
use nice_audio_player.Playback.Worker.State.{idle}
use nice_audio_player.Playback.Worker.Handle.{handle_event, command, shutdown}
use nice_audio_player.Playback.Worker.Tracks.{W}
use nice_audio_player.Playback.Worker.Outside.{Outside, Words}
use nice_audio_player.Playback.Worker.Balance.{
  held, settled, PreviousValid, issued, Settled, Apart, kept_token, Token,
}
use nice_audio_player.Prelude.{◌≡◌, ◌+◌, ℕ, refl, none, false, arith, ap, []}

module _ {words : Words} (o : Outside words) where
  -- A worker that has done nothing yet, and what inputs make of it.
  pub data Runs : W o → Type 0 where
    begins :
        {w : W o}
        → w.log ≡ []
        → w.transport ≡ idle
        → IsValid w.queue
        → w.previous_queue ≡ none
        → w.panicked ≡ false
        → Runs w
    takes_command :
        {w : W o} → Runs w → (c : PlaybackCommand words) → HasRoom w.queue c → Runs (command o c w)
    takes_event : {w : W o} → Runs w → (e : WorkerEvent words) → Runs (handle_event o e w)
    ticks : {w : W o} → Runs w → Runs (tick o w)

module _ {words : Words} {o : Outside words} (weigh : Token → ℕ) where
  pub Runs-Settled : weigh kept_token ≡ 0 → (w : W o) → Runs o w → Settled weigh o 0 w
  Runs-Settled spare w (begins log at v before fine) =
      rw (log, at, before) ((omega (arith, spare), (v, (tt, fine))), tt)
  Runs-Settled spare _ (takes_command {w} r c room) =
      command-Settled weigh c w room (Runs-Settled spare w r)
  Runs-Settled spare _ (takes_event {w} r e) =
      handle_event-Settled weigh e w (Runs-Settled spare w r)
  Runs-Settled spare _ (ticks {w} r) = tick-Settled weigh w (Runs-Settled spare w r)

  -- However replies, decode threads and threads that read a file are weighed, when a worker that
  -- inputs have led to shuts down, all that was issued has been settled, each exactly once: every
  -- caller has got one answer, every decode thread was cancelled once, and every load was joined or
  -- cancelled once.
  pub shutdown-Settled :
      weigh kept_token ≡ 0
      → (w : W o) → Runs o w
      → issued weigh (shutdown o w).log ≡ settled weigh (shutdown o w).log
  unfolding shutdown
  shutdown-Settled spare w r =
      let (cleared, e) = discard_transport-Settled weigh w 0 (Runs-Settled spare w r) in
      let w₁ = discard_transport o w in
      let told = publish_state-Settled weigh w₁ 0 cleared in
      omega (arith, told.0.0, publish_state-held weigh w₁, ap (held weigh) e)

  -- While a worker runs, each reply, decode thread and load that was issued and not settled is held
  -- by the transport, and nothing else is: none is lost and none is settled twice.
  pub Runs-held :
      weigh kept_token ≡ 0
      → (w : W o) → Runs o w
      → issued weigh w.log ≡ settled weigh w.log + held weigh w.transport
  Runs-held spare w r = omega (arith, (Runs-Settled spare w r).0.0)

abbrev pub no_weight : Token → ℕ
no_weight t = 0

module _ {words : Words} {o : Outside words} where
  -- No input makes the worker panic in a step on its queue, or where it cuts the rows of a queue
  -- snapshot, as long as the queue has ids left for the tracks that commands bring.
  pub Runs-panicked : (w : W o) → Runs o w → w.panicked ≡ false
  Runs-panicked w r = (Runs-Settled no_weight refl w r).0.1.1.1

  -- The queue of a running worker is valid, and so is the one that it keeps for one-step undo.
  pub Runs-IsValid : (w : W o) → Runs o w → IsValid w.queue × PreviousValid w.previous_queue
  Runs-IsValid w r = let s = Runs-Settled no_weight refl w r in (s.0.1.0, s.0.1.1.0)

  -- A running worker never has a seek in flight and a prefetched track at once.
  pub Runs-Apart : (w : W o) → Runs o w → Apart w.transport
  Runs-Apart w r = (Runs-Settled no_weight refl w r).1

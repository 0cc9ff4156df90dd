-- ===== src/Playback/Worker/Failures.antt =====
-- Failures of the output path (backend/src/audio/playback/worker/start.rs, `fail_start`).
use nice_audio_player.Playback.Worker.Balance.Runs.{no_weight}
use nice_audio_player.Playback.Worker.Balance.Reading.{playback_versioned-Same}
use nice_audio_player.Playback.Queue.State.{saturating_add}
use nice_audio_player.Playback.Worker.Transport.{set_transport}
use nice_audio_player.Playback.Worker.Publish.{publish, refresh_position, publish_state}
use nice_audio_player.Playback.Worker.Types.{service_error, output_scope, scope, StartFailure}
use nice_audio_player.Playback.Worker.State.{refused, failed, Answer, StartRequest}
use nice_audio_player.Playback.Worker.Failed.{show_failure, fail_start_with, skips, fail_start}
use nice_audio_player.Playback.Worker.Tracks.{W, respond}
use nice_audio_player.Playback.Worker.Outside.{Outside, Words}
use nice_audio_player.Prelude.{◌≡◌, ◌∙◌, ℕ, some, refl, none, false, Option}

module _ {words : Words} (o : Outside words) where
  respond-queue :
      (reply : Option ℕ) (a : Answer words) (w : W o) → (respond o reply a w).queue ≡ w.queue
  unfolding respond
  respond-queue none a w = refl
  respond-queue (some reply) a w = refl

  respond-kept :
      (reply : Option ℕ) (a : Answer words) (w : W o)
      → (respond o reply a w).transport ≡ w.transport
  unfolding respond
  respond-kept none a w = refl
  respond-kept (some reply) a w = refl

  scope-skips :
      (request : StartRequest words) (failure : StartFailure)
      → scope failure.phase ≡ output_scope
      → skips o request failure ≡ false
  unfolding skips
  scope-skips request failure h = rw h refl

  -- A start that fails because of the output, and not because of its file, leaves the queue as it is
  -- and skips to no other item: the transport is the failure of this start, and it tells listeners
  -- that nothing is skipped.
  pub fail_start-output :
      (request : StartRequest words) (failure : StartFailure) (w : W o)
      → scope failure.phase ≡ output_scope
      → ((fail_start o request failure w).queue ≡ w.queue)
        × ((fail_start o request failure w).transport ≡ failed (some request.id) failure.code false)
  unfolding fail_start fail_start_with show_failure publish_state refresh_position
  fail_start-output request failure w h =
      let w₁ = set_transport o (failed (some request.id) failure.code false) w in
      let w₂ = record w₁ { revision = saturating_add w₁.revision 1 } in
      let shown_ = playback_versioned-Same no_weight w₂ in
      let a = refused (service_error failure) in
      rw (scope-skips request failure h) (
        respond-queue request.responder a (publish o w₁) ∙ shown_.1.1.0,
        respond-kept request.responder a (publish o w₁) ∙ shown_.0,
      )

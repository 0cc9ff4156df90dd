-- ===== src/Playback/Worker/Balance/Failing.antt =====
-- What a failed start owes, and the start of the next item
-- (backend/src/audio/playback/worker/start.rs, failure.rs).
use nice_audio_player.Playback.Queue.Invariant.Advances.{advance-IsValid}
use nice_audio_player.Playback.Queue.Invariant.Shuffles.{Good}
use nice_audio_player.Playback.Worker.Publish.{publish}
use nice_audio_player.Playback.Worker.Balance.Starting.{
  discard-Sound, respond-Settled, discard-transport,
}
use nice_audio_player.Playback.Queue.Invariant.{Leaves, IsValid}
use nice_audio_player.Playback.Queue.Order.{advance}
use nice_audio_player.Playback.Queue.State.{
  panicked, ok, current_entry, err, len, user_next, QueueEntry,
}
use nice_audio_player.Playback.Worker.Balance.Reading.{
  resolve_current-Kept, Kept-trans, publish_state-held, occur_track_skipped_of-Kept, Kept-Settled,
  publish_state-Settled, publish_queue-Kept, Kept,
}
use nice_audio_player.Playback.Worker.Tracks.{resolve_current, W}
use nice_audio_player.Playback.Worker.Types.{
  source_worker, PlaybackServiceError, item_failure, PlaybackFailureCode, StartFailure, scope,
}
use nice_audio_player.Playback.Worker.Transport.{set_transport, discard_transport}
use nice_audio_player.Playback.Worker.Failed.{
  settle, is_visible, will_skip, spawn_start, Step, Resolved, new_start, occur_track_skipped,
  begin_start, load_begun, skip_to, show_failure, move_on, skips, fail_start, fail_start_with,
  next_after_item_failure, skipped_to,
}
use nice_audio_player.Playback.Worker.State.{refused, failed, idle, PlayableItem, StartRequest}
use nice_audio_player.Playback.Worker.Balance.{held, held_reply, Sound, Settled, Token}
use nice_audio_player.Playback.Worker.Outside.{bad, good, Outside, Words}
use nice_audio_player.Prelude.{
  ◌≡◌, ◌+◌, ◌&&◌, ℕ, true, some, refl, none, leb, if-cases, false, arith, ap, Option, Bool,
}

module _ {words : Words} (o : Outside words) where
  output_never_skips :
      (request : StartRequest words) → skips o request (item_failure source_worker) ≡ true → ⊥
  unfolding skips scope
  output_never_skips request e = ground arith

module _ {words : Words} (weigh : Token → ℕ) {o : Outside words} where
  pub discard_transport-Settled :
      (w : W o) (in_hand : ℕ)
      → Settled weigh o in_hand w
      → Settled weigh o in_hand (discard_transport o w) × ((discard_transport o w).transport ≡ idle)
  unfolding discard_transport
  discard_transport-Settled w in_hand s =
      let e = discard-transport weigh w.transport (set_transport o idle w) in
      let cleared =
        discard-Sound weigh w.transport (set_transport o idle w) in_hand
          (omega (arith, s.0.0), s.0.1) in
      ((rw e ((omega (arith, cleared.0), cleared.1), tt)), e)

  pub show_failure-Settled :
      (id : Option ℕ) (code : PlaybackFailureCode) (skipping : Bool) (w : W o) (in_hand : ℕ)
      → Sound weigh o in_hand w
      → Settled weigh o in_hand (show_failure o id code skipping w)
  unfolding show_failure occur_track_skipped
  show_failure-Settled id code skipping w in_hand s =
      let w₁ = set_transport o (failed id code skipping) w in
      let w₂ = publish o w₁ in
      let shown = publish_state-Settled weigh w₁ in_hand ((omega (arith, s.0), s.1), tt) in
      if-cases (Settled weigh o in_hand) skipping _ _
        (λ _.
          Kept-Settled weigh w₂ (occur_track_skipped o code w₂) in_hand
            (occur_track_skipped_of-Kept weigh (current_entry w₂.queue) code w₂) shown)
        (λ _. shown)

  pub skipped_to-Kept : (r : Resolved o) (w : W o) → Kept weigh w (skipped_to o r w).1
  unfolding skipped_to
  skipped_to-Kept (good (some item)) w = publish_queue-Kept weigh w
  skipped_to-Kept (good none) w = (refl, λ owed s. s)
  skipped_to-Kept (bad e) w = (refl, λ owed s. s)

  pub skip_to-Kept :
      (s : Step o (Option QueueEntry)) (w : W o)
      → (IsValid w.queue → Leaves (Good (Outside.rand o)) s)
      → Kept weigh w (skip_to o s w).1
  unfolding skip_to
  skip_to-Kept panicked w h = (refl, λ owed s. absurd (h s.1.0))
  skip_to-Kept (err e q) w h = (refl, λ owed s. (s.0, (h s.1.0, s.1.1)))
  skip_to-Kept (ok none q) w h = (refl, λ owed s. (s.0, (h s.1.0, s.1.1)))
  skip_to-Kept (ok (some entry) q) w h =
      let w₁ = settle o q w in
      let (answer, w₂) = resolve_current o w₁ in
      let moved : Kept weigh w w₁ = (refl, λ owed s. (s.0, (h s.1.0, s.1.1))) in
      let read = Kept-trans weigh w w₁ w₂ moved (resolve_current-Kept weigh w₁) in
      Kept-trans weigh w w₂ (skipped_to o answer w₂).1 read (skipped_to-Kept answer w₂)

  pub next_after_item_failure-Kept : (w : W o) → Kept weigh w (next_after_item_failure o w).1
  unfolding next_after_item_failure
  next_after_item_failure-Kept w =
      let w₁ = record w { skipped_in_a_row = w.skipped_in_a_row + 1 } in
      let next = skip_to o (advance (Outside.rand o) w₁.queue user_next w₁.gen) w₁ in
      if-cases (λ p. Kept weigh w p.1) (leb (len w₁.queue) w₁.skipped_in_a_row) (none, w₁) next
        (λ _. (refl, λ owed s. s))
        (λ _.
          let k = skip_to-Kept _ w₁ (advance-IsValid (Outside.rand o) w₁.queue user_next w₁.gen) in
          (k.0, λ owed s. k.1 owed s))

  -- What a start of a request does with everything in hand.
  abbrev pub Starts : (StartRequest words → W o → W o) → Type 0
  Starts begin =
      (request : StartRequest words) (w : W o)
      → Settled weigh o (held_reply weigh request.responder) w
      → Settled weigh o 0 (begin request w)

  pub move_on-Settled :
      (restart : StartRequest words → W o → W o)
      → Starts restart
      → (responder : Option ℕ) (e : PlaybackServiceError)
      → (found : Option (PlayableItem words)) (w : W o)
      → Settled weigh o (held_reply weigh responder) w
      → Settled weigh o 0 (move_on o restart responder e (found, w))
  unfolding move_on new_start
  move_on-Settled restart h responder e none w s = respond-Settled weigh responder (refused e) w s
  move_on-Settled restart h responder e (some item) w s = h _ _ s

  pub fail_start_with-Settled :
      (restart : StartRequest words → W o → W o)
      → (request : StartRequest words) (failure : StartFailure) (w : W o)
      → (skips o request failure ≡ true → Starts restart)
      → Sound weigh o (held_reply weigh request.responder) w
      → Settled weigh o 0 (fail_start_with o restart request failure w)
  unfolding fail_start_with
  fail_start_with-Settled restart request failure w h s =
      let skipping = skips o request failure && will_skip o w in
      let shown = show_failure-Settled (some request.id) failure.code skipping w _ s in
      let w₁ = show_failure o (some request.id) failure.code skipping w in
      let next = next_after_item_failure o w₁ in
      if-cases (Settled weigh o 0) (skips o request failure) _ _
        (λ e.
          move_on-Settled restart (h e) request.responder _ next.0 next.1
            (Kept-Settled weigh w₁ next.1 _ (next_after_item_failure-Kept w₁) shown))
        (λ _. respond-Settled weigh request.responder _ w₁ shown)

  pub load_begun-Settled :
      (request : StartRequest words) (load : ℕ) (spawned : Bool) (w : W o)
      → Sound weigh o (held_reply weigh request.responder) w
      → Settled weigh o 0 (load_begun o request load spawned w)
  unfolding load_begun
  load_begun-Settled request load true w s = ((omega (arith, s.0), s.1), tt)
  load_begun-Settled request load false w s =
      fail_start_with-Settled (λ request₁ w₁. w₁) request (item_failure source_worker) w
        (λ e. absurd (output_never_skips o request e)) s

  pub begin_start-Settled :
      (request : StartRequest words) (w : W o)
      → Settled weigh o (held_reply weigh request.responder) w
      → Settled weigh o 0 (begin_start o request w)
  unfolding begin_start spawn_start
  begin_start-Settled request w s =
      let (cleared, e) = discard_transport-Settled w _ s in
      let w₁ = discard_transport o w in
      let k = held_reply weigh request.responder in
      let at_rest : Sound weigh o k w₁ =
        (omega (arith, cleared.0.0, ap (held weigh) e), cleared.0.1) in
      let shown = publish_state-Settled weigh w₁ k cleared in
      let published : Sound weigh o k (publish o w₁) =
        (omega (arith, shown.0.0, publish_state-held weigh w₁, ap (held weigh) e), shown.0.1) in
      load_begun-Settled request _ _ _
        (if-cases (Sound weigh o k) (is_visible o w.transport) _ _ (λ _. published) (λ _. at_rest))

  pub fail_start-Settled :
      (request : StartRequest words) (failure : StartFailure) (w : W o)
      → Sound weigh o (held_reply weigh request.responder) w
      → Settled weigh o 0 (fail_start o request failure w)
  unfolding fail_start
  fail_start-Settled request failure w s =
      fail_start_with-Settled (begin_start o) request failure w (λ _. begin_start-Settled) s

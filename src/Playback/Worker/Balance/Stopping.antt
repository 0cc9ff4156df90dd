-- ===== src/Playback/Worker/Balance/Stopping.antt =====
-- What failed streams and decodes owe (backend/src/audio/playback/worker/failure.rs).
use nice_audio_player.Playback.Worker.Balance.Ticking.{Apart-still}
use nice_audio_player.Playback.Worker.Balance.Following.{give_up-Settled}
use nice_audio_player.Playback.Worker.Balance.Seeking.{cancel_seek-Settled}
use nice_audio_player.Playback.Worker.Prefetch.{prefetch_unusable, give_up, prefetch_unusable_from}
use nice_audio_player.Playback.Worker.Balance.Reading.{Kept-Settled}
use nice_audio_player.Playback.Worker.Balance.Failing.{
  fail_start-Settled, next_after_item_failure-Kept, show_failure-Settled,
}
use nice_audio_player.Playback.Worker.Balance.Starting.{let_go-Sound}
use nice_audio_player.Playback.Worker.Failed.{next_after_item_failure, show_failure, will_skip}
use nice_audio_player.Playback.Worker.Balance.Running.{new_start-Settled}
use nice_audio_player.Playback.Worker.Tracks.{emit, W}
use nice_audio_player.Playback.Worker.Transport.{set_transport, drop_loaded_from, drop_loaded}
use nice_audio_player.Playback.Worker.State.{
  unusable, pipeline_cancelled, ready, prefetch_source, PrefetchState, SeekInFlight, Prefetch,
  loading_source, idle, failed, loaded, prebuffering, loading, Loaded, Prebuffering, StartRequest,
  Transport, PlayableItem,
}
use nice_audio_player.Playback.Worker.Types.{
  owned_by_seek, owned_by_prefetch, gone, item_scope, service_error, owned_by_active,
  owned_by_start, is_item_scope, PlaybackServiceError, FailureScope, by_auto, PlaybackFailureCode,
  PipelineOwner,
}
use nice_audio_player.Playback.Worker.Failure.{
  decode_phase, owner_of_state, stopped_for, fail_loading, owner_of_next, owner_of_seek, owner_of,
  fail_active, start_next,
}
use nice_audio_player.Playback.Worker.Balance.{Apart, held, Sound, Settled, Token}
use nice_audio_player.Playback.Worker.Outside.{Outside, Words}
use nice_audio_player.Prelude.{
  inr, inl, Option-cases, ◌==◌, refl, ◌≡◌, ◌+◌, ◌&&◌, ℕ, sym, subst, some, none, if-cases, false,
  arith, ap, Option,
}

-- What an owner says of the transport.
abbrev pub Owned : {words : Words} → PipelineOwner → Transport words → Type 0
Owned {words} owned_by_start t =
    (request : StartRequest words) × (b : Prebuffering words) × (t
      ≡ loading request (prebuffering b))
Owned {words} owned_by_active t = (l : Loaded words) × (t ≡ loaded l)
Owned _ t = Unit

module _ {words : Words} (o : Outside words) where
  pub owner_of-Owned : (t : Transport words) (pipeline : ℕ) → Owned (owner_of o t pipeline) t
  unfolding owner_of owner_of_seek owner_of_next
  owner_of-Owned idle pipeline = tt
  owner_of-Owned (failed id code skipping) pipeline = tt
  owner_of-Owned (loading request (loading_source load)) pipeline = tt
  owner_of-Owned (loading request (prebuffering b)) pipeline =
      if-cases (λ own. Owned own (loading request (prebuffering b))) (b.pipeline == pipeline) _ _
        (λ _. (request, b, refl)) (λ _. tt)
  owner_of-Owned (loaded l) pipeline =
      if-cases (λ own. Owned own (loaded l)) (l.pipeline == pipeline) _ _ (λ _. (l, refl))
        (λ _. other l.seek)
    where
      state_owned :
          (state : PrefetchState words) → Owned (owner_of_state o state pipeline) (loaded l)
      state_owned unusable = tt
      state_owned (prefetch_source load item) = tt
      state_owned (ready track) =
          if-cases (λ own. Owned own (loaded l)) (track.pipeline == pipeline) _ _ (λ _. tt)
            (λ _. tt)

      next_owned :
          (prefetch : Option (Prefetch words))
          → Owned (owner_of_next o prefetch pipeline) (loaded l)
      next_owned none = tt
      next_owned (some prefetch) = state_owned prefetch.state

      other :
          (seek : Option (SeekInFlight words))
          → Owned (owner_of_seek o seek pipeline (owner_of_next o l.prefetch pipeline)) (loaded l)
      other none = next_owned l.prefetch
      other (some seek) =
          if-cases (λ own. Owned own (loaded l)) (seek.pipeline == pipeline) _ _ (λ _. tt)
            (λ _. next_owned l.prefetch)

module _ {words : Words} (weigh : Token → ℕ) {o : Outside words} where
  pub start_next-Settled :
      (item : Option (PlayableItem words)) (w : W o)
      → Settled weigh o 0 w
      → Settled weigh o 0 (start_next o item w)
  unfolding start_next
  start_next-Settled none w s = s
  start_next-Settled (some item) w s = new_start-Settled weigh item by_auto none false w s

  pub fail_active-Settled :
      (l : Loaded words) (code : PlaybackFailureCode) (scope : FailureScope)
      → (e : PlaybackServiceError) (w : W o) → w.transport ≡ loaded l
      → Settled weigh o 0 w
      → Settled weigh o 0 (fail_active o code scope e w)
  unfolding fail_active drop_loaded drop_loaded_from
  fail_active-Settled l code scope e w at s =
      let (id, w₁) = drop_loaded o e w in
      let skipping = is_item_scope scope && will_skip o w₁ in
      let w₂ = show_failure o id code skipping w₁ in
      let (found, w₃) = next_after_item_failure o w₂ in
      let w₀ = set_transport o idle w in
      let owed : Sound weigh o (0 + held weigh (loaded l)) w₀ =
        (omega (arith, s.0.0, ap (held weigh) at), s.0.1) in
      let dropped : Sound weigh o 0 w₁ =
        subst (λ t. Sound weigh o 0 (drop_loaded_from o t e w₀).1) (sym at)
          (let_go-Sound weigh l e w₀ 0 owed) in
      let told = show_failure-Settled weigh id code skipping w₁ 0 dropped in
      let left = Kept-Settled weigh w₂ w₃ 0 (next_after_item_failure-Kept weigh w₂) told in
      if-cases (Settled weigh o 0) (is_item_scope scope) _ _ (λ _. start_next-Settled found w₃ left)
        (λ _. told)

  pub fail_loading-Settled :
      (request : StartRequest words) (b : Prebuffering words) (code : PlaybackFailureCode) (w : W o)
      → Sound weigh o (held weigh (loading request (prebuffering b))) w
      → Settled weigh o 0 (fail_loading o code (loading request (prebuffering b)) w)
  unfolding fail_loading
  fail_loading-Settled request b code w s =
      fail_start-Settled weigh request (record { phase = decode_phase o code; code = code })
        (emit o (pipeline_cancelled b.pipeline) w) (omega (arith, s.0), s.1)

  pub prefetch_unusable_from-Settled :
      (t : Transport words) (w : W o)
      → w.transport ≡ t
      → Settled weigh o 0 w
      → Settled weigh o 0 (prefetch_unusable_from o t w)
  unfolding prefetch_unusable_from
  prefetch_unusable_from-Settled idle w at s = s
  prefetch_unusable_from-Settled (loading request stage) w at s = s
  prefetch_unusable_from-Settled (failed id code skipping) w at s = s
  prefetch_unusable_from-Settled (loaded l) w at s = elim (Option-cases l.prefetch) [
    | inl e ↦ rw (e, give_up) s
    | inr (prefetch, e) ↦
        give_up-Settled weigh l l.prefetch w at refl
          (Apart-still l prefetch (subst (λ t. Apart t) at s.1) e) s
  ]

  pub stopped_for-Settled :
      (owner : PipelineOwner) (code : PlaybackFailureCode) (w : W o)
      → Owned owner w.transport
      → Settled weigh o 0 w
      → Settled weigh o 0 (stopped_for o owner code w)
  unfolding stopped_for prefetch_unusable
  stopped_for-Settled gone code w h s = s
  stopped_for-Settled owned_by_prefetch code w h s =
      prefetch_unusable_from-Settled w.transport w refl s
  stopped_for-Settled owned_by_seek code w h s =
      (cancel_seek-Settled weigh
        (service_error (record { phase = decode_phase o code; code = code })) w 0 s).0
  stopped_for-Settled owned_by_active code w (l, at) s =
      fail_active-Settled l code item_scope
        (service_error (record { phase = decode_phase o code; code = code })) w at s
  stopped_for-Settled owned_by_start code w (request, b, at) s =
      subst (λ t. Settled weigh o 0 (fail_loading o code t (set_transport o idle w))) (sym at)
        (fail_loading-Settled request b code (set_transport o idle w)
          (omega (arith, s.0.0, ap (held weigh) at), s.0.1))

-- ===== src/Playback/Worker/Late.antt =====
-- Events of threads that were stopped already (backend/src/audio/playback/worker.rs,
-- `handle_event`, `owner_of` and `source_loaded`).
use nice_audio_player.Playback.Worker.Balance.{
  held, held_prefetch, held_seek, held_state, issued, settled, Token, decode_token, load_token,
}
use nice_audio_player.Playback.Worker.Balance.Runs.{Runs, Runs-held}
use nice_audio_player.Playback.Worker.Commands.{
  conversion_failed, decode_stopped_event, final_frames, prebuffer_ready, source_loaded,
}
use nice_audio_player.Playback.Worker.Failure.{
  decode_stopped, owner_of, owner_of_next, owner_of_seek, owner_of_state, stopped_for,
}
use nice_audio_player.Playback.Worker.Handle.{
  ends_at, ends_next, ends_state, handle_event, ready_for, source_for_prefetch, source_for_start,
  take_source,
}
use nice_audio_player.Playback.Worker.Outside.{Answered, Outside, Words}
use nice_audio_player.Playback.Worker.State.{
  Prefetch, PrefetchState, SeekInFlight, Transport, failed, idle, loaded, loading, loading_source,
  prebuffering, prefetch_source, ready, unusable,
}
use nice_audio_player.Playback.Worker.Tracks.{W}
use nice_audio_player.Playback.Worker.Types.{CompressedSourceError, PipelineOwner, gone}
use nice_audio_player.Prelude.{
  ◌≡◌, ◌∙◌, ◌==◌, ℕ, Option, ap, arith, false, if◌then◌else◌, none, refl, some, sym,
}

-- Counts the decode thread of one pipeline, and the thread of one load.
abbrev pub of_pipeline : ℕ → Token → ℕ
of_pipeline pipeline (decode_token p) = if p == pipeline then 1 else 0
of_pipeline pipeline _ = 0

abbrev pub of_load : ℕ → Token → ℕ
of_load load (load_token l) = if l == load then 1 else 0
of_load load _ = 0

uncounted : (a b : ℕ) → ◌≡◌ {A = ℕ} (if a == b then 1 else 0) 0 → (a == b) ≡ false
uncounted a b e = ground (arith, e)

module _ {words : Words} (o : Outside words) (pipeline : ℕ) where
  state-gone :
      (state : PrefetchState words)
      → held_state (of_pipeline pipeline) state ≡ 0
      → (owner_of_state o state pipeline ≡ gone)
        × ((end : ℕ) → ends_state o state pipeline end ≡ state)
  unfolding owner_of_state ends_state
  state-gone unusable e = (refl, λ end. refl)
  state-gone (prefetch_source load item) e = (refl, λ end. refl)
  state-gone (ready next) e =
      let apart = uncounted next.pipeline pipeline e in (rw apart refl, λ end. rw apart refl)

  next-gone :
      (next : Option (Prefetch words))
      → held_prefetch (of_pipeline pipeline) next ≡ 0
      → (owner_of_next o next pipeline ≡ gone) × ((end : ℕ) → ends_next o next pipeline end ≡ next)
  unfolding owner_of_next ends_next
  next-gone none e = (refl, λ end. refl)
  next-gone (some prefetch) e =
      let (mine, same) = state-gone prefetch.state e in
      (mine, λ end. ap (λ state. some (record prefetch { state = state })) (same end))

  seek-gone :
      (seek : Option (SeekInFlight words)) (other : PipelineOwner)
      → held_seek (of_pipeline pipeline) seek ≡ 0
      → owner_of_seek o seek pipeline other ≡ other
  unfolding owner_of_seek
  seek-gone none other e = refl
  seek-gone (some seek) other e = rw (uncounted seek.pipeline pipeline (omega (arith, e))) refl

  -- A decode thread that the transport does not hold is owned by nobody, and nothing ends with it.
  transport-gone :
      (t : Transport words) (w : W o)
      → w.transport ≡ t
      → held (of_pipeline pipeline) t ≡ 0
      → (owner_of o t pipeline ≡ gone) × ((end : ℕ) → ends_at o t pipeline end w ≡ w)
  unfolding owner_of ends_at
  transport-gone idle w at e = (refl, λ end. refl)
  transport-gone (failed id code skipping) w at e = (refl, λ end. refl)
  transport-gone (loading request (loading_source load)) w at e = (refl, λ end. refl)
  transport-gone (loading request (prebuffering b)) w at e =
      (rw (uncounted b.pipeline pipeline (omega (arith, e))) refl, λ end. refl)
  transport-gone (loaded l) w at e =
      let active = uncounted l.pipeline pipeline (omega (arith, e)) in
      let (next, same) = next-gone l.prefetch (omega (arith, e)) in
      let seeking = seek-gone l.seek (owner_of_next o l.prefetch pipeline) (omega (arith, e)) in
      (
        rw active (seeking ∙ next),
        λ end. rw active (λ i. record w {
          transport = (ap (λ p. loaded (record l { prefetch = p })) (same end) ∙ sym at) i;
        }),
      )

  -- When as many decode threads of a pipeline have been cancelled as were opened, an event of such a
  -- thread, be it a prebuffer that is ready, a failure or the last frames, changes nothing.
  pub handle_event-late :
      (w : W o)
      → Runs o w
      → (end : ℕ) → issued (of_pipeline pipeline) w.log ≡ settled (of_pipeline pipeline) w.log
      → (handle_event o (prebuffer_ready pipeline) w ≡ w)
        × (handle_event o (decode_stopped_event pipeline) w ≡ w)
        × (handle_event o (conversion_failed pipeline) w ≡ w)
        × (handle_event o (final_frames pipeline end) w ≡ w)
  unfolding handle_event decode_stopped stopped_for ready_for
  handle_event-late w r end over =
      let none_held : held (of_pipeline pipeline) w.transport ≡ 0 =
        omega (arith, over, Runs-held (of_pipeline pipeline) refl w r) in
      let (mine, same) = transport-gone w.transport w refl none_held in
      (rw mine refl, rw mine refl, rw mine refl, same end)

module _ {words : Words} (o : Outside words) (load : ℕ) where
  open words use {Source}

  source-unheld :
      (t : Transport words) (result : Answered words Source CompressedSourceError) (w : W o)
      → held (of_load load) t ≡ 0
      → take_source o t load result w ≡ w
  unfolding take_source source_for_start source_for_prefetch
  source-unheld idle result w e = refl
  source-unheld (failed id code skipping) result w e = refl
  source-unheld (loading request (prebuffering b)) result w e = refl
  source-unheld (loading request (loading_source l)) result w e =
      rw (uncounted l load (omega (arith, e))) refl
  source-unheld (loaded l) result w e = prefetched l.prefetch (omega (arith, e))
    where
      prefetched :
          (next : Option (Prefetch words))
          → held_prefetch (of_load load) next ≡ 0
          → (elim next [
            | none ↦ w
            | some p ↦ source_for_prefetch o l p.entry_id p.state load result w
          ])
            ≡ w
      prefetched none e₁ = refl
      prefetched (some p) e₁ = state p.entry_id p.state e₁
        where
          state :
              (entry : ℕ) (s : PrefetchState words)
              → held_state (of_load load) s ≡ 0
              → source_for_prefetch o l entry s load result w ≡ w
          state entry unusable e₂ = refl
          state entry (ready next) e₂ = refl
          state entry (prefetch_source other item) e₂ = rw (uncounted other load e₂) refl

  -- When as many threads of a load have been joined or cancelled as were spawned, a source that
  -- arrives from such a thread, or its failure, changes nothing.
  pub source_loaded-late :
      (w : W o)
      → Runs o w
      → (result : Answered words Source CompressedSourceError)
      → issued (of_load load) w.log ≡ settled (of_load load) w.log
      → handle_event o (source_loaded load result) w ≡ w
  unfolding handle_event
  source_loaded-late w r result over =
      source-unheld w.transport result w (omega (arith, over, Runs-held (of_load load) refl w r))

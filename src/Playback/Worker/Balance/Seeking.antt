-- ===== src/Playback/Worker/Balance/Seeking.antt =====
-- What a seek owes, and a start that is ready
-- (backend/src/audio/playback/worker/seek.rs, start.rs).
use nice_audio_player.Playback.Worker.Balance.Running.{advance_after_track-Settled}
use nice_audio_player.Playback.Worker.Balance.Starting.{
  respond-Settled, cancel_prefetched-Sound, drop_seek-Sound, respond-transport,
}
use nice_audio_player.Playback.Worker.Tracks.{emit, W}
use nice_audio_player.Playback.Worker.Types.{
  duration_unavailable, invalid_playback_state, superseded, seek_error, PipelineError,
  PlaybackServiceError,
}
use nice_audio_player.Playback.Worker.State.{
  unusable, prefetch_source, Loaded, idle, ready, PrefetchState, loaded, pipeline_cancelled, failed,
  refused, loading, Prefetch, Transport, SeekInFlight,
}
use nice_audio_player.Playback.Worker.Transport.{set_transport, cancel_prefetched, drop_seek}
use nice_audio_player.Playback.Worker.Seek.{
  seek_within, seek_from, begin_seek, cancel_prefetch, cancel_prefetch_from, seek_opened,
  clear_next, cancel_seek, throw_away, cancel_seek_from,
}
use nice_audio_player.Playback.Worker.Balance.{
  held_seek, held_reply, held, held_prefetch, Sound, Settled, Token,
}
use nice_audio_player.Playback.Worker.Outside.{good, bad, Opened, Answered, Outside, Words}
use nice_audio_player.Prelude.{
  ◌==◌, min, inr, inl, if-cases, Option-cases, ◌&&◌, true, is_some, false, Bool, ◌≡◌, ◌+◌, ℕ, some,
  refl, none, arith, ap, Option,
}

-- The transport without a seek, and without a prefetch too.
abbrev pub Still : {words : Words} → Transport words → Type 0
Still (loaded l) = l.seek ≡ none
Still _ = Unit

abbrev pub Bare : {words : Words} → Transport words → Type 0
Bare (loaded l) = (l.seek ≡ none) × (l.prefetch ≡ none)
Bare _ = Unit

and-false : (b : Bool) → (b && false) ≡ false
and-false true = refl
and-false false = refl

module _ {words : Words} (weigh : Token → ℕ) {o : Outside words} where
  pub drop_seek-transport :
      (seek : Option (SeekInFlight words)) (e : PlaybackServiceError) (w : W o)
      → (drop_seek o seek e w).transport ≡ w.transport
  unfolding drop_seek
  drop_seek-transport none e w = refl
  drop_seek-transport (some seek) e w =
      respond-transport weigh seek.responder (refused e)
        (emit o (pipeline_cancelled seek.pipeline) w)

  pub throw_away-transport :
      (prefetch : Option (Prefetch words)) (w : W o)
      → (throw_away o prefetch w).transport ≡ w.transport
  unfolding throw_away clear_next cancel_prefetched
  throw_away-transport prefetch w = ground arith

  -- A loaded track without a seek holds nothing for one.
  pub cancel_seek_from-Settled :
      (t : Transport words) (e : PlaybackServiceError) (w : W o) (in_hand : ℕ)
      → w.transport ≡ t
      → Settled weigh o in_hand w
      → Settled weigh o in_hand (cancel_seek_from o t e w)
        × Still (cancel_seek_from o t e w).transport
  unfolding cancel_seek_from
  cancel_seek_from-Settled idle e w in_hand at s = (s, rw at tt)
  cancel_seek_from-Settled (loading request stage) e w in_hand at s = (s, rw at tt)
  cancel_seek_from-Settled (failed id code skipping) e w in_hand at s = (s, rw at tt)
  cancel_seek_from-Settled (loaded l) e w in_hand at s =
      let w₁ = set_transport o (loaded (record l { seek = none })) w in
      let owed = held weigh (loaded (record l { seek = none })) + in_hand in
      let dropped =
        drop_seek-Sound weigh l.seek e w₁ owed (omega (arith, s.0.0, ap (held weigh) at), s.0.1) in
      rw (drop_seek-transport l.seek e w₁) ((dropped, refl), refl)

  pub cancel_seek-Settled :
      (e : PlaybackServiceError) (w : W o) (in_hand : ℕ)
      → Settled weigh o in_hand w
      → Settled weigh o in_hand (cancel_seek o e w) × Still (cancel_seek o e w).transport
  unfolding cancel_seek
  cancel_seek-Settled e w in_hand s = cancel_seek_from-Settled w.transport e w in_hand refl s

  pub clear_next-Sound :
      (state : PrefetchState words) (w : W o) (owed : ℕ)
      → Sound weigh o owed w
      → Sound weigh o owed (clear_next o state w)
  unfolding clear_next
  clear_next-Sound (ready next) w owed s = s
  clear_next-Sound (prefetch_source load item) w owed s = s
  clear_next-Sound unusable w owed s = s

  pub throw_away-Sound :
      (prefetch : Option (Prefetch words)) (w : W o) (owed : ℕ)
      → Sound weigh o (owed + held_prefetch weigh prefetch) w
      → Sound weigh o owed (throw_away o prefetch w)
  unfolding throw_away
  throw_away-Sound none w owed s = (omega (arith, s.0), s.1)
  throw_away-Sound (some prefetch) w owed s =
      cancel_prefetched-Sound weigh prefetch.state (clear_next o prefetch.state w) owed
        (clear_next-Sound prefetch.state w _ s)

  pub cancel_prefetch-Settled :
      (l : Loaded words) (w : W o) (in_hand : ℕ)
      → w.transport ≡ loaded l
      → Settled weigh o in_hand w
      → Settled weigh o in_hand (cancel_prefetch o l w)
        × ((cancel_prefetch o l w).transport ≡ loaded (record l { prefetch = none }))
  unfolding cancel_prefetch
  cancel_prefetch-Settled l w in_hand at s =
      let l₁ = record l { prefetch = none } in
      let w₁ = set_transport o (loaded l₁) w in
      let owed = held weigh (loaded l₁) + in_hand in
      let thrown =
        throw_away-Sound l.prefetch w₁ owed (omega (arith, s.0.0, ap (held weigh) at), s.0.1) in
      let e = throw_away-transport l.prefetch w₁ in (rw e (thrown, and-false (is_some l.seek)), e)

  pub cancel_prefetch_from-Settled :
      (t : Transport words) (w : W o) (in_hand : ℕ)
      → w.transport ≡ t
      → Still t
      → Settled weigh o in_hand w
      → Settled weigh o in_hand (cancel_prefetch_from o t w)
        × Bare (cancel_prefetch_from o t w).transport
  unfolding cancel_prefetch_from
  cancel_prefetch_from-Settled idle w in_hand at still s = (s, rw at tt)
  cancel_prefetch_from-Settled (loading request stage) w in_hand at still s = (s, rw at tt)
  cancel_prefetch_from-Settled (failed id code skipping) w in_hand at still s = (s, rw at tt)
  cancel_prefetch_from-Settled (loaded l) w in_hand at still s =
      let (t, e) = cancel_prefetch-Settled l w in_hand at s in (t, rw e (still, refl))

  pub seek_opened-Settled :
      (l : Loaded words) (d : ℕ) (responder : Option ℕ) (pipeline : ℕ)
      → (a : Answered words (Opened words) PipelineError) (w : W o) → w.transport ≡ loaded l
      → l.prefetch ≡ none
      → l.seek ≡ none
      → Settled weigh o (held_reply weigh responder) w
      → Settled weigh o 0 (seek_opened o l d responder pipeline a w)
  unfolding seek_opened
  seek_opened-Settled l d responder pipeline (bad e) w at bare still s =
      respond-Settled weigh responder (refused (seek_error e)) w s
  seek_opened-Settled l d responder pipeline (good opened) w at bare still s =
      ((omega (arith, s.0.0, ap (held weigh) at, ap (held_seek weigh) still), s.0.1), rw bare refl)

  pub seek_within-Settled :
      (l : Loaded words) (d requested : ℕ) (responder : Option ℕ) (w : W o)
      → w.transport ≡ loaded l
      → Bare (loaded l)
      → Settled weigh o (held_reply weigh responder) w
      → Settled weigh o 0 (seek_within o l d requested responder w)
  unfolding seek_within
  seek_within-Settled l d requested responder w at bare s =
      if-cases (Settled weigh o 0) (min requested d == d) _ _
        (λ _. advance_after_track-Settled weigh responder l.paused w s)
        (λ _. seek_opened-Settled l d responder _ _ _ at bare.1 bare.0 s)

  pub seek_from-Settled :
      (t : Transport words) (requested : ℕ) (responder : Option ℕ) (w : W o)
      → w.transport ≡ t
      → Bare t
      → Settled weigh o (held_reply weigh responder) w
      → Settled weigh o 0 (seek_from o t requested responder w)
  unfolding seek_from
  seek_from-Settled idle requested responder w at bare s =
      respond-Settled weigh responder (refused invalid_playback_state) w s
  seek_from-Settled (loading request stage) requested responder w at bare s =
      respond-Settled weigh responder (refused invalid_playback_state) w s
  seek_from-Settled (failed id code skipping) requested responder w at bare s =
      respond-Settled weigh responder (refused invalid_playback_state) w s
  seek_from-Settled (loaded l) requested responder w at bare s =
      elim (Option-cases l.position.duration_ms) [
        | inl e ↦
            rw (e, seek_from) (respond-Settled weigh responder (refused duration_unavailable) w s)
        | inr (d, e) ↦ rw (e, seek_from) (seek_within-Settled l d requested responder w at bare s)
      ]

  pub begin_seek-Settled :
      (requested : ℕ) (responder : Option ℕ) (w : W o)
      → Settled weigh o (held_reply weigh responder) w
      → Settled weigh o 0 (begin_seek o requested responder w)
  unfolding begin_seek
  begin_seek-Settled requested responder w s =
      let w₁ = cancel_seek o superseded w in
      let w₂ = cancel_prefetch_from o w₁.transport w₁ in
      let (s₁, still) = cancel_seek-Settled superseded w _ s in
      let (s₂, bare) = cancel_prefetch_from-Settled w₁.transport w₁ _ refl still s₁ in
      seek_from-Settled w₂.transport requested responder w₂ refl bare s₂

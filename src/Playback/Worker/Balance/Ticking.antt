-- ===== src/Playback/Worker/Balance/Ticking.antt =====
-- What the end of a track owes, and the tick
-- (backend/src/audio/playback/worker/prefetch.rs, progress.rs).
use nice_audio_player.Playback.Queue.Order.{advance}
use nice_audio_player.Playback.Queue.Invariant.Shuffles.{Good}
use nice_audio_player.Playback.Worker.Balance.Reading.{publish_state-Settled}
use nice_audio_player.Playback.Worker.Balance.Following.{maybe_prefetch_from-Settled}
use nice_audio_player.Playback.Queue.Invariant.{Leaves}
use nice_audio_player.Playback.Queue.State.{ok, panicked, natural, err, QueueEntry}
use nice_audio_player.Playback.Worker.Balance.Running.{
  settle-Settled, publish_queue-Settled, advance_after_track-Settled,
}
use nice_audio_player.Playback.Worker.Transport.{set_transport}
use nice_audio_player.Playback.Worker.Failed.{settle, Step}
use nice_audio_player.Playback.Worker.Tracks.{W}
use nice_audio_player.Playback.Worker.Publish.{publish_queue, sample_position, publish_position}
use nice_audio_player.Playback.Worker.Progress.{
  update_position, finish_if_due, finish_at, publish_previous, finish_from, tick,
  update_position_from, move_position,
}
use nice_audio_player.Playback.Worker.Prefetch.{
  follows, maybe_prefetch, adopted, adopt, advance_to_adopt, adopt_prefetched, adopt_state,
}
use nice_audio_player.Playback.Worker.Balance.{
  held_seek, held, decode_token, held_state, Settled, held_prefetch, Apart, Token,
}
use nice_audio_player.Playback.Worker.State.{
  unusable, idle, ready, prefetch_source, failed, loading, PrefetchedTrack, loaded, PrefetchState,
  Transport, Prefetch, Loaded,
}
use nice_audio_player.Playback.Worker.Outside.{Outside, Words}
use nice_audio_player.Prelude.{
  ◌≡◌, ℕ, subst, some, refl, not, none, leb, if-cases, false, arith, ap, Option, Bool,
}
use nice_audio_player.Playback.Queue.Invariant.Advances.{advance-IsValid}

pub Apart-still :
    {words : Words} (l : Loaded words) (prefetch : Prefetch words)
    → Apart (loaded l)
    → l.prefetch ≡ some prefetch
    → l.seek ≡ none
Apart-still l prefetch apart e = ground arith

module _ {words : Words} (weigh : Token → ℕ) {o : Outside words} where
  pub adopted-Settled :
      (l : Loaded words) (track : PrefetchedTrack words) (w : W o)
      → w.transport ≡ loaded l
      → l.seek ≡ none
      → held_prefetch weigh l.prefetch ≡ weigh (decode_token track.pipeline)
      → Settled weigh o 0 w
      → Settled weigh o 0 (adopted o l track w)
  unfolding adopted
  adopted-Settled l track w at still e s =
      ((omega (arith, s.0.0, ap (held weigh) at, ap (held_seek weigh) still, e), s.0.1), refl)

  pub adopt-Settled :
      (l : Loaded words) (track : PrefetchedTrack words) (w : W o)
      → w.transport ≡ loaded l
      → l.seek ≡ none
      → held_prefetch weigh l.prefetch ≡ weigh (decode_token track.pipeline)
      → Settled weigh o 0 w
      → Settled weigh o 0 (adopt o l track w)
  unfolding adopt
  adopt-Settled l track w at still e s =
      publish_state-Settled weigh (publish_queue o (adopted o l track w)) 0 (
        publish_queue-Settled weigh (adopted o l track w) 0
          (adopted-Settled l track w at still e s))

  pub advance_to_adopt-Settled :
      (l : Loaded words) (track : PrefetchedTrack words) (q : Step o (Option QueueEntry)) (w : W o)
      → Leaves (Good (Outside.rand o)) q
      → w.transport ≡ loaded l
      → l.seek ≡ none
      → held_prefetch weigh l.prefetch ≡ weigh (decode_token track.pipeline)
      → Settled weigh o 0 w
      → Settled weigh o 0 (advance_to_adopt o l track q w)
  unfolding advance_to_adopt
  advance_to_adopt-Settled l track panicked w v at still e s = absurd v
  advance_to_adopt-Settled l track (err failure q) w v at still e s =
      adopt-Settled l track (settle o q w) at still e (settle-Settled weigh q w 0 v s)
  advance_to_adopt-Settled l track (ok entry q) w v at still e s =
      adopt-Settled l track (settle o q w) at still e (settle-Settled weigh q w 0 v s)

  pub adopt_state-Settled :
      (l : Loaded words) (id : ℕ) (state : PrefetchState words) (w : W o)
      → w.transport ≡ loaded l
      → l.seek ≡ none
      → held_prefetch weigh l.prefetch ≡ held_state weigh state
      → Settled weigh o 0 w
      → Settled weigh o 0 (adopt_state o l id state w).1
  unfolding adopt_state
  adopt_state-Settled l id unusable w at still e s = s
  adopt_state-Settled l id (prefetch_source load item) w at still e s = s
  adopt_state-Settled l id (ready track) w at still e s =
      if-cases (λ (p : Bool × W o). Settled weigh o 0 p.1) (follows o w id) _ _
        (λ _.
          advance_to_adopt-Settled l track (advance (Outside.rand o) w.queue natural w.gen) w
            (advance-IsValid (Outside.rand o) w.queue natural w.gen s.0.1.0) at still e s)
        (λ _. s)

  pub adopt_prefetched-Settled :
      (l : Loaded words) (prefetch : Option (Prefetch words)) (w : W o)
      → w.transport ≡ loaded l
      → l.prefetch ≡ prefetch
      → Settled weigh o 0 w
      → Settled weigh o 0 (adopt_prefetched o l prefetch w).1
  unfolding adopt_prefetched
  adopt_prefetched-Settled l none w at e s = s
  adopt_prefetched-Settled l (some prefetch) w at e s =
      adopt_state-Settled l prefetch.entry_id prefetch.state w at
        (Apart-still l prefetch (subst (λ t. Apart t) at s.1) e) (ap (held_prefetch weigh) e) s

  pub finish_at-Settled :
      (l : Loaded words) (end : Option ℕ) (w : W o)
      → w.transport ≡ loaded l
      → Settled weigh o 0 w
      → Settled weigh o 0 (finish_at o l end w)
  unfolding finish_at
  finish_at-Settled l none w at s = s
  finish_at-Settled l (some end) w at s =
      let (now, world) = Outside.stream_now o l.output.id w.world in
      let w₁ = record w { world = world } in
      let (adopted_, w₂) = adopt_prefetched o l l.prefetch w₁ in
      let moved = adopt_prefetched-Settled l l.prefetch w₁ at refl s in
      if-cases (Settled weigh o 0) (not (leb end now)) _ _ (λ _. s)
        (λ _.
          if-cases (Settled weigh o 0) adopted_ _ _ (λ _. moved)
            (λ _. advance_after_track-Settled weigh none false w₂ moved))

  pub finish_from-Settled :
      (t : Transport words) (w : W o)
      → w.transport ≡ t
      → Settled weigh o 0 w
      → Settled weigh o 0 (finish_from o t w)
  unfolding finish_from
  finish_from-Settled idle w at s = s
  finish_from-Settled (loading request stage) w at s = s
  finish_from-Settled (failed id code skipping) w at s = s
  finish_from-Settled (loaded l) w at s =
      if-cases (Settled weigh o 0) l.paused _ _ (λ _. s)
        (λ _. finish_at-Settled l l.completion_time w at s)

  pub move_position-Settled :
      (l : Loaded words) (frame : ℕ) (w : W o)
      → w.transport ≡ loaded l
      → Settled weigh o 0 w
      → Settled weigh o 0 (move_position o l frame w)
  unfolding move_position publish_position
  move_position-Settled l frame w at s =
      let owed : Settled weigh o 0 (set_transport o (loaded l) w) =
        ((omega (arith, s.0.0, ap (held weigh) at), s.0.1), subst (λ t. Apart t) at s.1) in
      if-cases (Settled weigh o 0) _ _ _ (λ _. owed) (λ _. owed)

  pub publish_previous-Settled :
      (t : Transport words) (w : W o)
      → Settled weigh o 0 w
      → Settled weigh o 0 (publish_previous o t w)
  unfolding publish_previous
  publish_previous-Settled idle w s = s
  publish_previous-Settled (loading request stage) w s = s
  publish_previous-Settled (failed id code skipping) w s = s
  publish_previous-Settled (loaded l) w s =
      if-cases (Settled weigh o 0) _ _ _ (λ _. s) (λ _. publish_state-Settled weigh w 0 s)

  pub update_position_from-Settled :
      (t : Transport words) (w : W o)
      → w.transport ≡ t
      → Settled weigh o 0 w
      → Settled weigh o 0 (update_position_from o t w)
  unfolding update_position_from sample_position
  update_position_from-Settled idle w at s = s
  update_position_from-Settled (loading request stage) w at s = s
  update_position_from-Settled (failed id code skipping) w at s = s
  update_position_from-Settled (loaded l) w at s =
      let (frame, w₁) = sample_position o l w in
      let w₂ = move_position o l frame w₁ in
      if-cases (Settled weigh o 0) l.paused _ _ (λ _. s)
        (λ _. publish_previous-Settled w₂.transport w₂ (move_position-Settled l frame w₁ at s))

  -- At a tick nothing is lost and nothing settled twice, and the queue stays valid.
  pub tick-Settled : (w : W o) → Settled weigh o 0 w → Settled weigh o 0 (tick o w)
  unfolding tick finish_if_due update_position maybe_prefetch
  tick-Settled w s =
      let w₁ = finish_if_due o w in
      let s₁ = finish_from-Settled w.transport w refl s in
      let w₂ = update_position o w₁ in
      let s₂ = update_position_from-Settled w₁.transport w₁ refl s₁ in
      maybe_prefetch_from-Settled weigh w₂.transport w₂ refl s₂

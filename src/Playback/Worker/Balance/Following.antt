-- ===== src/Playback/Worker/Balance/Following.antt =====
-- What the track that follows owes, and the tick
-- (backend/src/audio/playback/worker/prefetch.rs, progress.rs).
use nice_audio_player.Playback.Worker.Transport.{cancel_prefetched}
use nice_audio_player.Playback.Worker.Balance.Starting.{cancel_prefetched-Sound}
use nice_audio_player.Playback.Worker.Balance.Reading.{item_of-Same, Same-Kept}
use nice_audio_player.Playback.Worker.Balance.Seeking.{cancel_prefetch-Settled}
use nice_audio_player.Playback.Queue.Order.{peek_natural}
use nice_audio_player.Playback.Worker.Publish.{position_ms}
use nice_audio_player.Playback.Worker.Types.{PipelineError, CompressedSourceError}
use nice_audio_player.Playback.Queue.State.{QueueEntry}
use nice_audio_player.Playback.Worker.Tracks.{emit, item_of, W}
use nice_audio_player.Playback.Worker.State.{
  load_spawned, told_upcoming, idle, next_cleared, failed, prefetch_source, unusable, loading,
  loaded, PlayableItem, Prefetch, Transport, PrefetchState, Loaded,
}
use nice_audio_player.Playback.Worker.Prefetch.{
  set_prefetch, follows, prefetch_lead_ms, revalidate, maybe_prefetch_from, prefetch_loaded,
  prefetch_item, prefetch_opened, revalidate_from, prefetch_after, give_up, prefetch_near_end,
  prefetch_begun,
}
use nice_audio_player.Playback.Worker.Balance.{
  held_prefetch, held_seek, held, held_state, decode_token, Sound, Settled, Token,
}
use nice_audio_player.Playback.Worker.Outside.{good, bad, Opened, Answered, Outside, Words}
use nice_audio_player.Prelude.{
  ◌≡◌, ◌||◌, ◌^◌, ◌-◌, ◌+◌, ◌%◌, ℕ, true, some, refl, none, ltb, is_some, inr, inl, if-cases, false,
  arith, ap, Option-cases, Option, Bool,
}

module _ {words : Words} (weigh : Token → ℕ) {o : Outside words} where
  open words use {Source}

  -- The prefetch of a loaded track without a seek is put in the place of another.
  pub set_prefetch-Settled :
      (l : Loaded words) (id : ℕ) (state : PrefetchState words) (w : W o)
      → l.seek ≡ none
      → Sound weigh o (weigh (decode_token l.pipeline) + held_state weigh state) w
      → Settled weigh o 0 (set_prefetch o l id state w)
  set_prefetch-Settled l id state w still s =
      ((omega (arith, s.0, ap (held_seek weigh) still), s.1), rw still refl)

  pub prefetch_begun-Settled :
      (l : Loaded words) (id : ℕ) (item : PlayableItem words) (load : ℕ) (spawned : Bool) (w : W o)
      → l.seek ≡ none
      → Sound weigh o (weigh (decode_token l.pipeline)) w
      → Settled weigh o 0 (prefetch_begun o l id item load spawned w)
  unfolding prefetch_begun
  prefetch_begun-Settled l id item load true w still s =
      set_prefetch-Settled l id (prefetch_source load item) (emit o (load_spawned load) w) still
        (omega (arith, s.0), s.1)
  prefetch_begun-Settled l id item load false w still s =
      set_prefetch-Settled l id unusable w still (omega (arith, s.0), s.1)

  pub prefetch_item-Settled :
      (l : Loaded words) (id : ℕ) (item : Option (PlayableItem words)) (w : W o)
      → l.seek ≡ none
      → Sound weigh o (weigh (decode_token l.pipeline)) w
      → Settled weigh o 0 (prefetch_item o l id item w)
  unfolding prefetch_item
  prefetch_item-Settled l id none w still s =
      set_prefetch-Settled l id unusable w still (omega (arith, s.0), s.1)
  prefetch_item-Settled l id (some item) w still s =
      let load = (w.source_load_ids + 1) % 2 ^ 64 in
      let (spawned, world) = Outside.spawn_load o item.track.file load w.world in
      let w₁ = record (emit o (told_upcoming item) w) { source_load_ids = load; world = world } in
      prefetch_begun-Settled l id item load spawned w₁ still s

  pub prefetch_after-Settled :
      (l : Loaded words) (e : Option QueueEntry) (w : W o)
      → w.transport ≡ loaded l
      → l.seek ≡ none
      → l.prefetch ≡ none
      → Settled weigh o 0 w
      → Settled weigh o 0 (prefetch_after o l e w)
  unfolding prefetch_after
  prefetch_after-Settled l none w at still bare s = s
  prefetch_after-Settled l (some entry) w at still bare s =
      let (item, w₁) = item_of o entry w in
      let owed : Sound weigh o (weigh (decode_token l.pipeline)) w = (
        omega (
          arith,
          s.0.0,
          ap (held weigh) at,
          ap (held_seek weigh) still,
          ap (held_prefetch weigh) bare,
        ),
        s.0.1,
      ) in
      prefetch_item-Settled l entry.id item w₁ still
        ((Same-Kept weigh w w₁ (item_of-Same entry w)).1 _ owed)

  pub prefetch_near_end-Settled :
      (l : Loaded words) (d : Option ℕ) (w : W o)
      → w.transport ≡ loaded l
      → l.seek ≡ none
      → l.prefetch ≡ none
      → Settled weigh o 0 w
      → Settled weigh o 0 (prefetch_near_end o l d w)
  unfolding prefetch_near_end
  prefetch_near_end-Settled l none w at still bare s = s
  prefetch_near_end-Settled l (some d) w at still bare s =
      if-cases (Settled weigh o 0) (ltb prefetch_lead_ms (d - position_ms l)) _ _ (λ _. s)
        (λ _. prefetch_after-Settled l (peek_natural w.queue) w at still bare s)

  pub maybe_prefetch_from-Settled :
      (t : Transport words) (w : W o)
      → w.transport ≡ t
      → Settled weigh o 0 w
      → Settled weigh o 0 (maybe_prefetch_from o t w)
  unfolding maybe_prefetch_from
  maybe_prefetch_from-Settled idle w at s = s
  maybe_prefetch_from-Settled (loading request stage) w at s = s
  maybe_prefetch_from-Settled (failed id code skipping) w at s = s
  maybe_prefetch_from-Settled (loaded l) w at s =
      if-cases (Settled weigh o 0) (is_some l.prefetch || (is_some l.seek || l.paused)) _ _ (λ _. s)
        (λ e.
          prefetch_near_end-Settled l l.position.duration_ms w at (ground arith) (ground arith) s)

  pub prefetch_opened-Settled :
      (l : Loaded words) (id : ℕ) (item : PlayableItem words) (source : Source) (pipeline : ℕ)
      → (a : Answered words (Opened words) PipelineError) (w : W o) → l.seek ≡ none
      → Sound weigh o (weigh (decode_token l.pipeline)) w
      → Settled weigh o 0 (prefetch_opened o l id item source pipeline a w)
  unfolding prefetch_opened
  prefetch_opened-Settled l id item source pipeline (bad e) w still s =
      set_prefetch-Settled l id unusable w still (omega (arith, s.0), s.1)
  prefetch_opened-Settled l id item source pipeline (good opened) w still s =
      ((omega (arith, s.0, ap (held_seek weigh) still), s.1), rw still refl)

  pub prefetch_loaded-Settled :
      (l : Loaded words) (id : ℕ) (item : PlayableItem words)
      → (r : Answered words Source CompressedSourceError) (w : W o) → l.seek ≡ none
      → Sound weigh o (weigh (decode_token l.pipeline)) w
      → Settled weigh o 0 (prefetch_loaded o l id item r w)
  unfolding prefetch_loaded
  prefetch_loaded-Settled l id item (bad e) w still s =
      set_prefetch-Settled l id unusable w still (omega (arith, s.0), s.1)
  prefetch_loaded-Settled l id item (good source) w still s =
      prefetch_opened-Settled l id item source _ _ _ still s

  pub give_up-Settled :
      (l : Loaded words) (prefetch : Option (Prefetch words)) (w : W o)
      → w.transport ≡ loaded l
      → l.prefetch ≡ prefetch
      → l.seek ≡ none
      → Settled weigh o 0 w
      → Settled weigh o 0 (give_up o l prefetch w)
  unfolding give_up
  give_up-Settled l none w at e still s = s
  give_up-Settled l (some prefetch) w at e still s =
      let w₁ = emit o next_cleared w in
      let decode = weigh (decode_token l.pipeline) in
      let owed : Sound weigh o (decode + held_state weigh prefetch.state) w₁ = (
        omega (
          arith,
          s.0.0,
          ap (held weigh) at,
          ap (held_seek weigh) still,
          ap (held_prefetch weigh) e,
        ),
        s.0.1,
      ) in
      let left = cancel_prefetched-Sound weigh prefetch.state w₁ decode owed in
      set_prefetch-Settled l prefetch.entry_id unusable (cancel_prefetched o prefetch.state w₁)
        still (omega (arith, left.0), left.1)

  pub revalidate_from-Settled :
      (t : Transport words) (w : W o)
      → w.transport ≡ t
      → Settled weigh o 0 w
      → Settled weigh o 0 (revalidate_from o t w)
  unfolding revalidate_from revalidate
  revalidate_from-Settled idle w at s = s
  revalidate_from-Settled (loading request stage) w at s = s
  revalidate_from-Settled (failed id code skipping) w at s = s
  revalidate_from-Settled (loaded l) w at s = elim (Option-cases l.prefetch) [
    | inl e ↦ rw (e, revalidate) s
    | inr (prefetch, e) ↦
        rw (e, revalidate)
          (if-cases (Settled weigh o 0) (follows o w prefetch.entry_id) _ _ (λ _. s)
            (λ _. (cancel_prefetch-Settled weigh l w 0 at s).0))
  ]

-- ===== src/Playback/Worker/Resolving.antt =====
-- The loop that reads the current item (backend/src/audio/playback/worker/start.rs,
-- `resolve_current`).
use nice_audio_player.Playback.Queue.Invariant.Edits.{remove_entries-IsValid}
use nice_audio_player.Playback.Queue.Effects.Edits.{remove_entries-Without, stays}
use nice_audio_player.Playback.Worker.Balance.Reading.{Found-cases, resolve_one-Same}
use nice_audio_player.Vec.Counts.{length-retain}
use nice_audio_player.Playback.Queue.Edit.{remove_entries}
use nice_audio_player.Playback.Queue.Invariant.{IsValid}
use nice_audio_player.Playback.Worker.Tracks.{resolve_one, W, resolve_loop}
use nice_audio_player.Playback.Queue.State.{
  QueueEntry, PlaybackQueue, contains, play_order, current_entry, len,
}
use nice_audio_player.Playback.Worker.Outside.{Outside, Words}
use nice_audio_player.Prelude.{
  ◌≡◌, ◌∷◌, ◌∙◌, ◌<◌, ℕ, zero, unwrap_or, true, sym, suc, subst, some, refl, length, is_some, inr,
  inl, count_if-pos, count_if-not, count_if, arith, ap, [], Option-cases, Bool,
}

-- The current entry is taken out of a valid queue, which is shorter without it.
pub remove_entries-shorter :
    (q : PlaybackQueue) (e : QueueEntry)
    → IsValid q
    → current_entry q ≡ some e
    → len (remove_entries q (e.id ∷ [])).1 < len q
unfolding len current_entry play_order contains
remove_entries-shorter q e v at =
    let ids = e.id ∷ [] in
    let gone : QueueEntry → Bool = λ entry. contains ids entry.id in
    let there : 0 < count_if gone (unwrap_or q.shuffled q.arranged) =
      count_if-pos gone (unwrap_or q.shuffled q.arranged) q.current e at (ground arith) in
    omega (
      arith,
      there,
      v.same gone,
      count_if-not gone q.arranged,
      length-retain (stays ids) q.arranged,
      ap length (remove_entries-Without q ids v).arranged,
    )

module _ {words : Words} (o : Outside words) where
  -- Reading the current item ends: with more turns than the queue has entries the loop has an
  -- answer, so that `resolve_current` has one after a turn for each entry and one more.
  pub resolve_loop-answers :
      (fuel : ℕ) (w : W o)
      → IsValid w.queue
      → len w.queue < fuel
      → is_some (resolve_loop o fuel w).0 ≡ true
  unfolding resolve_loop
  resolve_loop-answers zero w v enough = absurd (omega arith)
  resolve_loop-answers (suc fuel) w v enough = elim (Option-cases (current_entry w.queue)) [
    | inl e ↦ rw (e, resolve_loop) refl
    | inr (entry, e) ↦
        let w₁ = (resolve_one o entry.track_id w).1 in
        let w₂ = record w₁ { queue = (remove_entries w₁.queue (entry.id ∷ [])).1 } in
        let same = (resolve_one-Same entry.track_id w).1.1.0 in
        let valid = subst IsValid (sym same) v in
        let shorter = remove_entries-shorter w₁.queue entry valid (ap current_entry same ∙ e) in
        let again =
          resolve_loop-answers fuel w₂ (remove_entries-IsValid w₁.queue (entry.id ∷ []) valid)
            (omega (arith, shorter, ap len same)) in
        elim (Found-cases (resolve_one o entry.track_id w).0) [
          | inl e₁ ↦ rw (e, e₁, resolve_loop) again
          | inr (inl (failure, e₁)) ↦ rw (e, e₁, resolve_loop) refl
          | inr (inr (track, e₁)) ↦ rw (e, e₁, resolve_loop) refl
        ]
  ]

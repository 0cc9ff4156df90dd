-- ===== src/Playback/Worker/Balance/Reading.antt =====
-- Steps of the worker that read tracks and tell listeners
-- (backend/src/audio/playback/resolver.rs, worker/publish.rs, worker/start.rs).
use nice_audio_player.Playback.Worker.Types.{PlaybackFailureCode}
use nice_audio_player.Playback.Worker.Failed.{occur_track_skipped_of}
use nice_audio_player.Playback.Worker.State.{idle, failed, loaded, Loaded, loading, Transport}
use nice_audio_player.Playback.Worker.Publish.{
  render, refresh_position, failed_item, publish_state, sample_position, playback_versioned,
  preferences_changed, publish_queue, queue_snapshot_of, render_transport,
}
use nice_audio_player.Playback.Worker.Rows.{shown_rows}
use nice_audio_player.Playback.Worker.Balance.Cutting.{rows-split}
use nice_audio_player.Playback.Queue.Invariant.Edits.{remove_entries-IsValid}
use nice_audio_player.Playback.Queue.State.{saturating_add, len, current_entry, QueueEntry}
use nice_audio_player.Playback.Queue.Edit.{remove_entries}
use nice_audio_player.Playback.Worker.Tracks.{
  prune_unavailable, gone_ids, shown_entries, prune_loop, resolve_current, W, resolve_one,
  resolve_loop, resolve, item_of,
}
use nice_audio_player.Playback.Worker.Balance.{Apart, held, Sound, Settled, Token}
use nice_audio_player.Playback.Worker.Outside.{bad, good, Answered, Outside, Words}
use nice_audio_player.Prelude.{
  ap, ◌+◌, map, if-cases, ◌⊎◌, some, none, Option, ◌≡◌, ◌∷◌, ◌∙◌, ℕ, zero, suc, refl, inr, inl,
  arith, [], Option-cases, List,
}

pub Answered-cases :
    {words : Words} {A E : Type 0} (a : Answered words A E)
    → ((e : E) × (a ≡ bad e)) ⊎ ((x : A) × (a ≡ good x))
Answered-cases (bad e) = inl (e, refl)
Answered-cases (good x) = inr (x, refl)

pub Found-cases :
    {words : Words} {A E : Type 0} (a : Answered words (Option A) E)
    → (a ≡ good none) ⊎ (((e : E) × (a ≡ bad e)) ⊎ ((x : A) × (a ≡ good (some x))))
Found-cases (good none) = inl refl
Found-cases (bad e) = inr (inl (e, refl))
Found-cases (good (some x)) = inr (inr (x, refl))

module _ {words : Words} {o : Outside words} where
  -- A step that only reads tracks.
  abbrev pub Same : W o → W o → Type 0
  Same w w₁ =
      (w₁.transport ≡ w.transport)
      × ((w₁.log ≡ w.log)
          × ((w₁.queue ≡ w.queue)
              × ((w₁.previous_queue ≡ w.previous_queue) × (w₁.panicked ≡ w.panicked))))

  pub resolve-Same : (ids : List ℕ) (w : W o) → Same w (resolve o ids w).1
  unfolding resolve
  resolve-Same ids w = ground arith

  pub resolve_one-Same : (id : ℕ) (w : W o) → Same w (resolve_one o id w).1
  unfolding resolve_one
  resolve_one-Same id w = resolve-Same (id ∷ []) w

  pub item_of-Same : (e : QueueEntry) (w : W o) → Same w (item_of o e w).1
  unfolding item_of
  item_of-Same e w = resolve_one-Same e.track_id w

module _ {words : Words} (weigh : Token → ℕ) {o : Outside words} where
  -- A step that leaves the transport as it is and everything sound.
  abbrev pub Kept : W o → W o → Type 0
  Kept w w₁ =
      (w₁.transport ≡ w.transport) × ((owed : ℕ) → Sound weigh o owed w → Sound weigh o owed w₁)

  pub Same-Kept : (w w₁ : W o) → Same w w₁ → Kept w w₁
  Same-Kept w w₁ h = (h.0, λ owed s. rw (h.1.0, h.1.1.0, h.1.1.1.0, h.1.1.1.1) s)

  pub Kept-trans : (w w₁ w₂ : W o) → Kept w w₁ → Kept w₁ w₂ → Kept w w₂
  Kept-trans w w₁ w₂ h k = (k.0 ∙ h.0, λ owed s. k.1 owed (h.1 owed s))

  pub Kept-Settled :
      (w w₁ : W o) (in_hand : ℕ)
      → Kept w w₁
      → Settled weigh o in_hand w
      → Settled weigh o in_hand w₁
  Kept-Settled w w₁ in_hand h s = rw h.0 (h.1 _ s.0, s.1)

  -- The entries that are gone leave the queue.
  pub remove_entries-Kept :
      (ids : List ℕ) (w : W o) → Kept w (record w { queue = (remove_entries w.queue ids).1 })
  remove_entries-Kept ids w =
      (refl, λ owed s. (s.0, (remove_entries-IsValid w.queue ids s.1.0, s.1.1)))

  pub resolve_loop-Kept : (fuel : ℕ) (w : W o) → Kept w (resolve_loop o fuel w).1
  unfolding resolve_loop
  resolve_loop-Kept zero w = (refl, λ owed s. s)
  resolve_loop-Kept (suc fuel) w = elim (Option-cases (current_entry w.queue)) [
    | inl e ↦ rw (e, resolve_loop) (refl, λ owed s. s)
    | inr (entry, e) ↦
        let w₁ = (resolve_one o entry.track_id w).1 in
        let w₂ = record w₁ { queue = (remove_entries w₁.queue (entry.id ∷ [])).1 } in
        let read = Same-Kept w w₁ (resolve_one-Same entry.track_id w) in
        let removed = Kept-trans w w₁ w₂ read (remove_entries-Kept (entry.id ∷ []) w₁) in
        let again =
          Kept-trans w w₂ (resolve_loop o fuel w₂).1 removed (resolve_loop-Kept fuel w₂) in
        elim (Found-cases (resolve_one o entry.track_id w).0) [
          | inl e₁ ↦ rw (e, e₁, resolve_loop) again
          | inr (inl (failure, e₁)) ↦ rw (e, e₁, resolve_loop) read
          | inr (inr (track, e₁)) ↦ rw (e, e₁, resolve_loop) read
        ]
  ]

  pub resolve_current-Kept : (w : W o) → Kept w (resolve_current o w).1
  unfolding resolve_current
  resolve_current-Kept w = resolve_loop-Kept (suc (len w.queue)) w

  pub prune_loop-Kept : (fuel : ℕ) (w : W o) → Kept w (prune_loop o fuel w)
  unfolding prune_loop
  prune_loop-Kept zero w = (refl, λ owed s. s)
  prune_loop-Kept (suc fuel) w =
      let shown = shown_entries o w.queue in
      let ids = map (λ e. e.track_id) shown in
      let w₁ = (resolve o ids w).1 in
      let read = Same-Kept w w₁ (resolve-Same ids w) in
      elim (Answered-cases (resolve o ids w).0) [
        | inl (failure, e) ↦ rw (e, prune_loop) read
        | inr (tracks, e) ↦
            let gone = gone_ids o shown tracks in
            let w₂ = record w₁ { queue = (remove_entries w₁.queue gone).1 } in
            let removed = Kept-trans w w₁ w₂ read (remove_entries-Kept gone w₁) in
            let again = Kept-trans w w₂ (prune_loop o fuel w₂) removed (prune_loop-Kept fuel w₂) in
            rw (e, prune_loop)
              (if-cases (Kept w) _ _ _
                (λ _.
                  if-cases (λ q. Kept w (record w₁ { queue = q })) _ _ _ (λ _. read) (λ _. removed))
                (λ _. again))
      ]

  pub prune_unavailable-Kept : (w : W o) → Kept w (prune_unavailable o w)
  unfolding prune_unavailable
  prune_unavailable-Kept w = prune_loop-Kept (suc (len w.queue)) w

  pub queue_snapshot_of-Same : (w : W o) → Same w (queue_snapshot_of o w).1
  unfolding queue_snapshot_of
  queue_snapshot_of-Same w =
      let (at, (log, (queue, (before, fine)))) =
        resolve-Same (map (λ e. e.track_id) (shown_rows w.queue)) w in
      (at, (log, (queue, (before, rw (rows-split o w) fine))))

  pub publish_queue-Kept : (w : W o) → Kept w (publish_queue o w)
  unfolding publish_queue
  publish_queue-Kept w =
      let w₁ = prune_unavailable o w in
      let w₂ = record w₁ { next_queue_revision = saturating_add w₁.next_queue_revision 1 } in
      let w₃ = (queue_snapshot_of o w₂).1 in
      let shown = Same-Kept w₂ w₃ (queue_snapshot_of-Same w₂) in
      let pruned = prune_unavailable-Kept w in
      (shown.0 ∙ pruned.0, λ owed s. shown.1 owed (pruned.1 owed s))

  pub preferences_changed-Kept : (w : W o) → Kept w (preferences_changed o w)
  unfolding preferences_changed
  preferences_changed-Kept w = (refl, λ owed s. s)

  pub failed_item-Same : (w : W o) → Same w (failed_item o w).1
  unfolding failed_item
  failed_item-Same w = elim (Option-cases (current_entry w.queue)) [
    | inl e ↦ rw (e, failed_item) (refl, (refl, (refl, (refl, refl))))
    | inr (entry, e) ↦ rw (e, failed_item) (item_of-Same entry w)
  ]

  pub render_transport-Same : (t : Transport words) (w : W o) → Same w (render_transport o t w).1
  unfolding render_transport
  render_transport-Same idle w = ground arith
  render_transport-Same (loading request stage) w = ground arith
  render_transport-Same (loaded l) w = ground arith
  render_transport-Same (failed id code skipping) w = failed_item-Same w

  pub playback_versioned-Same : (w : W o) → Same w (playback_versioned o w).1
  unfolding playback_versioned render
  playback_versioned-Same w = render_transport-Same w.transport w

  pub sample_position-Same : (l : Loaded words) (w : W o) → Same w (sample_position o l w).1
  unfolding sample_position
  sample_position-Same l w = (refl, (refl, (refl, (refl, refl))))

  -- What is published is rendered of a transport that holds the same.
  pub refresh_position-Settled :
      (t : Transport words) (w : W o) (in_hand : ℕ)
      → Sound weigh o (held weigh t + in_hand) w
      → Apart t
      → w.transport ≡ t
      → Settled weigh o in_hand (refresh_position o t w)
  unfolding refresh_position
  refresh_position-Settled idle w in_hand s a e = rw e (s, a)
  refresh_position-Settled (loading request stage) w in_hand s a e = rw e (s, a)
  refresh_position-Settled (failed id code skipping) w in_hand s a e = rw e (s, a)
  refresh_position-Settled (loaded l) w in_hand s a e =
      if-cases (λ w₁. Settled weigh o in_hand w₁) l.paused _ _ (λ _. rw e (s, a)) (λ _. (s, a))

  pub publish_state-Settled :
      (w : W o) (in_hand : ℕ)
      → Settled weigh o in_hand w
      → Settled weigh o in_hand (publish_state o w).1
  unfolding publish_state
  publish_state-Settled w in_hand s =
      let w₁ = refresh_position o w.transport w in
      let w₂ = record w₁ { revision = saturating_add w₁.revision 1 } in
      let w₃ = (playback_versioned o w₂).1 in
      let fresh = refresh_position-Settled w.transport w in_hand s.0 s.1 refl in
      Kept-Settled w₂ w₃ in_hand (Same-Kept w₂ w₃ (playback_versioned-Same w₂)) fresh

  pub occur_track_skipped_of-Kept :
      (e : Option QueueEntry) (code : PlaybackFailureCode) (w : W o)
      → Kept w (occur_track_skipped_of o e code w)
  unfolding occur_track_skipped_of
  occur_track_skipped_of-Kept none code w = (refl, λ owed s. s)
  occur_track_skipped_of-Kept (some entry) code w =
      let read = Same-Kept w (item_of o entry w).1 (item_of-Same entry w) in
      (read.0, λ owed s. read.1 owed s)

  pub refresh_position-held :
      (t : Transport words) (w : W o)
      → w.transport ≡ t
      → held weigh (refresh_position o t w).transport ≡ held weigh w.transport
  unfolding refresh_position
  refresh_position-held idle w e = refl
  refresh_position-held (loading request stage) w e = refl
  refresh_position-held (failed id code skipping) w e = refl
  refresh_position-held (loaded l) w e =
      if-cases (λ (w₁ : W o). held weigh w₁.transport ≡ held weigh w.transport) l.paused _ _
        (λ _. refl) (λ _. rw e refl)

  pub publish_state-held :
      (w : W o) → held weigh (publish_state o w).1.transport ≡ held weigh w.transport
  unfolding publish_state
  publish_state-held w =
      let w₁ = refresh_position o w.transport w in
      let w₂ = record w₁ { revision = saturating_add w₁.revision 1 } in
      ap (held weigh) (playback_versioned-Same w₂).0 ∙ refresh_position-held w.transport w refl

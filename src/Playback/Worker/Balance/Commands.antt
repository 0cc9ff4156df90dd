-- ===== src/Playback/Worker/Balance/Commands.antt =====
-- What each command of a caller owes (backend/src/audio/playback/worker.rs, worker/start.rs).
use nice_audio_player.Playback.Worker.Balance.Keeping.{Settled-keeping, keeping-Settled, keeping}
use nice_audio_player.Playback.Queue.Invariant.Advances.{advance-IsValid}
use nice_audio_player.Playback.Worker.Balance.Reading.{publish_state-Settled}
use nice_audio_player.Playback.Worker.Start.{start_current}
use nice_audio_player.Playback.Worker.Balance.Queueing.{queue_replaced-Settled}
use nice_audio_player.Playback.Queue.Order.{restore, advance, replace}
use nice_audio_player.Playback.Worker.Balance.Seeking.{begin_seek-Settled}
use nice_audio_player.Playback.Worker.Balance.Commanding.{
  playback_versioned-Settled, resume_from-Settled, answer_with-Settled,
}
use nice_audio_player.Playback.Worker.State.{shows_queue, refused}
use nice_audio_player.Playback.Worker.Types.{invalid_playback_state, by_jump}
use nice_audio_player.Playback.Worker.Balance.Running.{
  publish_queue-Settled, settle-Settled, start_current-Settled,
}
use nice_audio_player.Playback.Worker.Balance.Starting.{respond-Settled}
use nice_audio_player.Playback.Worker.Publish.{publish_state, playback_versioned, publish_queue}
use nice_audio_player.Playback.Queue.Invariant.Replacing.{restore-IsValid, replace-IsValid}
use nice_audio_player.Playback.Queue.Invariant.Shuffles.{Good}
use nice_audio_player.Playback.Worker.Failed.{settle, Step}
use nice_audio_player.Playback.Worker.Transport.{shown, resume}
use nice_audio_player.Playback.Worker.Tracks.{W}
use nice_audio_player.Playback.Queue.Invariant.Additions.{next_after}
use nice_audio_player.Playback.Queue.Invariant.{order-length, Leaves, IsValid}
use nice_audio_player.Playback.Worker.Balance.{reply_token, PreviousValid, Settled, Token}
use nice_audio_player.Playback.Worker.Commands.{
  is_loaded, same_entry, started_by_of, is_paused, restarts, enqueue_tracks, replace_queue,
  resume_command, restore_from, play_restored, queue_restored, navigate, start_enqueued, navigated,
  start, PlaybackCommand,
}
use nice_audio_player.Playback.Worker.Outside.{Outside, Words}
use nice_audio_player.Playback.Queue.State.{
  play_order, panicked, ok, err, QueueEntry, AdvanceReason, u64_max, current_entry, PlaybackQueue,
}
use nice_audio_player.Prelude.{
  lt_of_get_elem?, inr, inl, Option-cases, arith, ◌≤◌, ◌≡◌, ◌<◌, ◌&&◌, ℕ, true, some, refl, none,
  length, is_some, if-cases, false, Option, List, Bool,
}

-- What the callers of a command see to: the counter of the queue's ids does not run out.
abbrev pub HasRoom : {words : Words} → PlaybackQueue → PlaybackCommand words → Type 0
HasRoom q (start track_ids start_index reply) = next_after q track_ids ≤ u64_max
HasRoom q (enqueue_tracks track_ids after_current reply) = next_after q track_ids ≤ u64_max
HasRoom q _ = Unit

pub has_current :
    (q : PlaybackQueue)
    → is_some (current_entry q) ≡ true
    → IsValid q
    → q.current < length q.arranged
unfolding current_entry play_order
has_current q e v = elim (Option-cases (current_entry q)) [
  | inl none_there ↦ cc
  | inr (entry, there) ↦
      omega (arith, lt_of_get_elem? (play_order q) q.current entry there, order-length v)
]

module _ {words : Words} (weigh : Token → ℕ) {o : Outside words} where
  pub start_enqueued-Settled :
      (track_ids : List ℕ) (reply : ℕ) (w : W o)
      → next_after w.queue track_ids ≤ u64_max
      → Settled weigh o (weigh (reply_token reply)) w
      → Settled weigh o 0 (start_enqueued o track_ids reply w)
  unfolding start_enqueued replace_queue
  start_enqueued-Settled track_ids reply w room s =
      let (replaced, w₁) = replace_queue o track_ids 0 w in
      let valid = replace-IsValid (Outside.rand o) w.queue track_ids 0 w.gen s.0.1.0 room in
      let outcome = replace (Outside.rand o) w.queue track_ids 0 w.gen in
      let s₁ = queue_replaced-Settled weigh outcome w (weigh (reply_token reply)) valid s in
      let w₂ = start_current o none false by_jump (record w₁ { skipped_in_a_row = 0 }) in
      let s₂ =
        start_current-Settled (keeping weigh (weigh (reply_token reply))) none false by_jump
          (record w₁ { skipped_in_a_row = 0 })
          (keeping-Settled weigh (weigh (reply_token reply)) w₁ s₁) in
      if-cases (Settled weigh o 0) replaced _ _
        (λ _.
          respond-Settled weigh (some reply) (shows_queue w₂.queue_snapshot) w₂
            (Settled-keeping weigh (weigh (reply_token reply)) w₂ s₂))
        (λ _. respond-Settled weigh (some reply) (refused invalid_playback_state) w₁ s₁)

  pub play_restored-Settled :
      (same_current : Bool) (reply : ℕ) (w : W o)
      → Settled weigh o (weigh (reply_token reply)) w
      → Settled weigh o 0 (play_restored o same_current reply w)
  unfolding play_restored
  play_restored-Settled same_current reply w s =
      let w₁ = record w { skipped_in_a_row = 0 } in
      let w₂ = publish_queue o w₁ in
      if-cases (Settled weigh o 0) same_current _ _
        (λ _.
          answer_with-Settled weigh reply (shown o (publish_state o w₂))
            (publish_state-Settled weigh w₂ _ (publish_queue-Settled weigh w₁ _ s)))
        (λ _. start_current-Settled weigh (some reply) false by_jump w₁ s)

  pub queue_restored-Settled :
      (same_current : Bool) (a : Step o Unit) (reply : ℕ) (w : W o)
      → Leaves (Good (Outside.rand o)) a
      → Settled weigh o (weigh (reply_token reply)) w
      → Settled weigh o 0 (queue_restored o same_current a reply w)
  unfolding queue_restored
  queue_restored-Settled same_current panicked reply w v s = absurd v
  queue_restored-Settled same_current (err e q) reply w v s =
      play_restored-Settled same_current reply (settle o q w) (settle-Settled weigh q w _ v s)
  queue_restored-Settled same_current (ok u q) reply w v s =
      play_restored-Settled same_current reply (settle o q w) (settle-Settled weigh q w _ v s)

  pub restore_from-Settled :
      (before : Option PlaybackQueue) (reply : ℕ) (w : W o)
      → PreviousValid before
      → Settled weigh o (weigh (reply_token reply)) w
      → Settled weigh o 0 (restore_from o before reply w)
  unfolding restore_from
  restore_from-Settled none reply w v s =
      respond-Settled weigh (some reply) (refused invalid_playback_state) w s
  restore_from-Settled (some before) reply w v s =
      queue_restored-Settled
        (same_entry o (current_entry w.queue) (current_entry before) && is_loaded o w.transport)
        (restore (Outside.rand o) w.queue before w.gen) reply (record w { previous_queue = none })
        (restore-IsValid (Outside.rand o) w.queue before w.gen v)
        ((s.0.0, (s.0.1.0, (tt, s.0.1.1.1))), s.1)

  pub navigated-Settled :
      (reason : AdvanceReason) (a : Step o (Option QueueEntry)) (paused : Bool) (reply : ℕ)
      (w : W o)
      → Leaves (Good (Outside.rand o)) a
      → Settled weigh o (weigh (reply_token reply)) w
      → Settled weigh o 0 (navigated o reason a paused reply w)
  unfolding navigated
  navigated-Settled reason panicked paused reply w v s = absurd v
  navigated-Settled reason (err e q) paused reply w v s =
      answer_with-Settled weigh reply (shown o (playback_versioned o (settle o q w)))
        (playback_versioned-Settled weigh (settle o q w) _ (settle-Settled weigh q w _ v s))
  navigated-Settled reason (ok none q) paused reply w v s =
      answer_with-Settled weigh reply (shown o (playback_versioned o (settle o q w)))
        (playback_versioned-Settled weigh (settle o q w) _ (settle-Settled weigh q w _ v s))
  navigated-Settled reason (ok (some entry) q) paused reply w v s =
      start_current-Settled weigh (some reply) paused (started_by_of o reason) (settle o q w)
        (settle-Settled weigh q w _ v s)

  pub navigate-Settled :
      (reason : AdvanceReason) (reply : ℕ) (w : W o)
      → Settled weigh o (weigh (reply_token reply)) w
      → Settled weigh o 0 (navigate o reason reply w)
  unfolding navigate
  navigate-Settled reason reply w s =
      if-cases (Settled weigh o 0) (restarts o reason w.transport) _ _
        (λ _. begin_seek-Settled weigh 0 (some reply) w s)
        (λ _.
          navigated-Settled reason (advance (Outside.rand o) w.queue reason w.gen)
            (is_paused o w.transport) reply (record w { skipped_in_a_row = 0 })
            (advance-IsValid (Outside.rand o) w.queue reason w.gen s.0.1.0) s)

  pub resume_command-Settled :
      (reply : ℕ) (w : W o)
      → Settled weigh o (weigh (reply_token reply)) w
      → Settled weigh o 0 (resume_command o reply w)
  unfolding resume_command resume
  resume_command-Settled reply w s =
      if-cases (Settled weigh o 0) _ _ _
        (λ _.
          start_current-Settled weigh (some reply) false by_jump (record w { skipped_in_a_row = 0 })
            s)
        (λ _.
          answer_with-Settled weigh reply (resume o w)
            (resume_from-Settled weigh w.transport w _ refl s))

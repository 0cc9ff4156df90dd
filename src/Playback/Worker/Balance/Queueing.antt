-- ===== src/Playback/Worker/Balance/Queueing.antt =====
-- What the commands on the queue owe
-- (backend/src/audio/playback/worker.rs, worker/start.rs, worker/publish.rs).
use nice_audio_player.Playback.Queue.Order.{replace}
use nice_audio_player.Playback.Queue.Invariant.Replacing.{replace-IsValid}
use nice_audio_player.Playback.Queue.Invariant.Edits.{clear_upcoming-IsValid}
use nice_audio_player.Playback.Queue.Invariant.Additions.{next_after}
use nice_audio_player.Playback.Queue.Edit.{clear_upcoming}
use nice_audio_player.Playback.Worker.Commands.{
  keep_previous, replace_queue, queue_replaced, start_queue,
}
use nice_audio_player.Playback.Worker.Balance.Choosing.{queue_changed-Settled}
use nice_audio_player.Playback.Worker.Types.{
  invalid_playback_state, by_jump, queue_busy, queue_item_not_found,
}
use nice_audio_player.Playback.Worker.Balance.Running.{start_current-Settled, settle-Settled}
use nice_audio_player.Playback.Worker.Balance.Starting.{respond-Settled}
use nice_audio_player.Playback.Worker.State.{refused, shows_queue}
use nice_audio_player.Playback.Worker.Transport.{is_loading}
use nice_audio_player.Playback.Queue.Invariant.Shuffles.{Good}
use nice_audio_player.Playback.Worker.Publish.{queue_changed, preferences_changed}
use nice_audio_player.Playback.Worker.Failed.{settle, Step}
use nice_audio_player.Playback.Queue.Invariant.{Leaves, IsValid}
use nice_audio_player.Playback.Worker.Tracks.{forget, respond, W}
use nice_audio_player.Playback.Queue.State.{
  is_empty, u64_max, panicked, ok, err, PlaybackQueue, Outcome,
}
use nice_audio_player.Playback.Worker.Handle.{
  clear_queue_of, jumped, always_changed, edit_queue, mode_changed, queue_edited, shuffle_changed,
}
use nice_audio_player.Playback.Worker.Balance.{PreviousValid, reply_token, Settled, Token}
use nice_audio_player.Playback.Worker.Outside.{Outside, Words}
use nice_audio_player.Prelude.{◌≤◌, if◌then◌else◌, List, ℕ, true, some, if-cases, false, Bool}

module _ {words : Words} (o : Outside words) where
  pub always_changed-Leaves :
      (a : Outcome PlaybackQueue Unit) → Leaves IsValid a → Leaves IsValid (always_changed o a)
  always_changed-Leaves (ok u q) v = v
  always_changed-Leaves (err e q) v = v
  always_changed-Leaves panicked v = v

module _ {words : Words} (weigh : Token → ℕ) {o : Outside words} where
  -- A queue that is left valid is put in the place of the worker's.
  pub put_queue-Settled :
      (q : PlaybackQueue) (w : W o) (in_hand : ℕ)
      → IsValid q
      → Settled weigh o in_hand w
      → Settled weigh o in_hand (record w { queue = q })
  put_queue-Settled q w in_hand v s = ((s.0.0, (v, s.0.1.1)), s.1)

  pub edited-Settled :
      (changed : Bool) (reply : ℕ) (w : W o)
      → Settled weigh o (weigh (reply_token reply)) w
      → Settled weigh o 0 (
          respond o
            (some reply)
            (shows_queue (queue_changed o changed w).0)
            (queue_changed o changed w).1)
  edited-Settled changed reply w s =
      respond-Settled weigh (some reply) (shows_queue (queue_changed o changed w).0)
        (queue_changed o changed w).1 (queue_changed-Settled weigh changed w _ s)

  pub queue_edited-Settled :
      (a : Outcome PlaybackQueue Bool) (reply : ℕ) (w : W o)
      → Leaves IsValid a
      → Settled weigh o (weigh (reply_token reply)) w
      → Settled weigh o 0 (queue_edited o a reply w)
  unfolding queue_edited
  queue_edited-Settled panicked reply w v s = absurd v
  queue_edited-Settled (err e q) reply w v s =
      respond-Settled weigh (some reply) (refused queue_item_not_found) (record w { queue = q })
        (put_queue-Settled q w _ v s)
  queue_edited-Settled (ok changed q) reply w v s =
      edited-Settled changed reply (record w { queue = q }) (put_queue-Settled q w _ v s)

  pub edit_queue-Settled :
      (a : Outcome PlaybackQueue Bool) (reply : ℕ) (w : W o)
      → Leaves IsValid a
      → Settled weigh o (weigh (reply_token reply)) w
      → Settled weigh o 0 (edit_queue o a reply w)
  unfolding edit_queue
  edit_queue-Settled a reply w v s =
      if-cases (Settled weigh o 0) (is_loading o w.transport) _ _
        (λ _. respond-Settled weigh (some reply) (refused queue_busy) w s)
        (λ _. queue_edited-Settled a reply w v s)

  pub mode_changed-Settled :
      (changed : Bool) (reply : ℕ) (w : W o)
      → Settled weigh o (weigh (reply_token reply)) w
      → Settled weigh o 0 (mode_changed o changed reply w)
  unfolding mode_changed preferences_changed
  mode_changed-Settled true reply w s = edited-Settled true reply (preferences_changed o w) s
  mode_changed-Settled false reply w s = edited-Settled false reply w s

  pub shuffle_changed-Settled :
      (a : Step o Bool) (reply : ℕ) (w : W o)
      → Leaves (Good (Outside.rand o)) a
      → Settled weigh o (weigh (reply_token reply)) w
      → Settled weigh o 0 (shuffle_changed o a reply w)
  unfolding shuffle_changed
  shuffle_changed-Settled panicked reply w v s = absurd v
  shuffle_changed-Settled (err e q) reply w v s =
      mode_changed-Settled false reply (settle o q w) (settle-Settled weigh q w _ v s)
  shuffle_changed-Settled (ok changed q) reply w v s =
      mode_changed-Settled changed reply (settle o q w) (settle-Settled weigh q w _ v s)

  pub jumped-Settled :
      (a : Outcome PlaybackQueue Unit) (reply : ℕ) (w : W o)
      → Leaves IsValid a
      → Settled weigh o (weigh (reply_token reply)) w
      → Settled weigh o 0 (jumped o a reply w)
  unfolding jumped
  jumped-Settled panicked reply w v s = absurd v
  jumped-Settled (err e q) reply w v s =
      respond-Settled weigh (some reply) (refused queue_item_not_found) (record w { queue = q })
        (put_queue-Settled q w _ v s)
  jumped-Settled (ok u q) reply w v s =
      start_current-Settled weigh (some reply) false by_jump (record w { queue = q })
        (put_queue-Settled q w _ v s)

  pub clear_queue_of-Settled :
      (reply : ℕ) (w : W o)
      → Settled weigh o (weigh (reply_token reply)) w
      → Settled weigh o 0 (clear_queue_of o reply w)
  unfolding clear_queue_of
  clear_queue_of-Settled reply w s =
      let (changed, queue) = clear_upcoming w.queue in
      let before = if changed then some w.queue else w.previous_queue in
      edited-Settled changed reply (record w { queue = queue; previous_queue = before })
        (
          (
            s.0.0,
            (
              clear_upcoming-IsValid w.queue s.0.1.0,
              (if-cases PreviousValid changed _ _ (λ _. s.0.1.0) (λ _. s.0.1.1.0), s.0.1.1.1),
            ),
          ),
          s.1,
        )

  pub queue_replaced-Settled :
      (a : Step o Unit) (w : W o) (in_hand : ℕ)
      → Leaves (Good (Outside.rand o)) a
      → Settled weigh o in_hand w
      → Settled weigh o in_hand (queue_replaced o a w).1
  unfolding queue_replaced keep_previous forget
  queue_replaced-Settled panicked w in_hand v s = absurd v
  queue_replaced-Settled (err e q) w in_hand v s = settle-Settled weigh q w in_hand v s
  queue_replaced-Settled (ok u q) w in_hand v s =
      let before = if-cases PreviousValid (is_empty w.queue) _ _ (λ _. tt) (λ _. s.0.1.0) in
      ((s.0.0, (v, (before, s.0.1.1.1))), s.1)

  pub start_queue-Settled :
      (track_ids : List ℕ) (start_index reply : ℕ) (w : W o)
      → next_after w.queue track_ids ≤ u64_max
      → Settled weigh o (weigh (reply_token reply)) w
      → Settled weigh o 0 (start_queue o track_ids start_index reply w)
  unfolding start_queue replace_queue
  start_queue-Settled track_ids start_index reply w room s =
      let (replaced, w₁) = replace_queue o track_ids start_index w in
      let valid =
        replace-IsValid (Outside.rand o) w.queue track_ids start_index w.gen s.0.1.0 room in
      let s₁ =
        queue_replaced-Settled (replace (Outside.rand o) w.queue track_ids start_index w.gen) w
          (weigh (reply_token reply)) valid s in
      if-cases (Settled weigh o 0) replaced _ _
        (λ _.
          start_current-Settled weigh (some reply) false by_jump
            (record w₁ { skipped_in_a_row = 0 }) s₁)
        (λ _. respond-Settled weigh (some reply) (refused invalid_playback_state) w₁ s₁)

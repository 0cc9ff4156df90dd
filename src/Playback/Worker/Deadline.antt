-- ===== src/Playback/Worker/Deadline.antt =====
-- When the worker next has something to do on its own
-- (backend/src/audio/playback/worker/progress.rs, `next_deadline`). Times are in nanoseconds.
use nice_audio_player.Playback.Worker.Prefetch.{
  from_millis, prefetch_lead_ms, position_update_interval,
}
use nice_audio_player.Playback.Queue.State.{PlaybackQueue}
use nice_audio_player.Playback.Worker.Tracks.{W}
use nice_audio_player.Playback.Queue.Order.{peek_natural}
use nice_audio_player.Playback.Worker.State.{loaded, Transport, Loaded}
use nice_audio_player.Playback.Worker.Publish.{previous_restart_threshold_ms, position_ms}
use nice_audio_player.Playback.Worker.Outside.{Outside, Words}
use nice_audio_player.Prelude.{
  ◌≤◌, ◌≡◌, ◌-◌, ◌+◌, ◌&&◌, ℕ, some, refl, not, none, min, inl, inr, ◌⊎◌, ◌<◌, ltb, is_some,
  if◌then◌else◌, false, arith, Option, Bool,
}
use native.Mathlib.Decide.{dec_lt}

module _ {words : Words} (o : Outside words) where
  -- The next position publish; an overdue one waits a full interval.
  unfoldable pub publish_deadline : Loaded words → ℕ → ℕ
  publish_deadline l now =
      let publish_at = l.position.last_publish + position_update_interval in
      if ltb now publish_at then publish_at else now + position_update_interval

  -- The end of the track, once the stream has reported it.
  unfoldable pub end_deadline : Loaded words → Option ℕ → ℕ → ℕ → W o → ℕ × W o
  end_deadline l none now deadline w = (deadline, w)
  end_deadline l (some end) now deadline w =
      let (stream_now, world) = Outside.stream_now o l.output.id w.world in
      (min deadline (now + Outside.duration_since o end stream_now), record w { world = world })

  -- Whether a prefetch may start near the end.
  unfoldable pub awaits_prefetch : Loaded words → PlaybackQueue → Bool
  unfolding peek_natural
  awaits_prefetch l q =
      not (is_some l.prefetch) && (not (is_some l.seek) && is_some (peek_natural q))

  unfoldable pub track_deadline : Loaded words → Option ℕ → PlaybackQueue → ℕ → ℕ → ℕ
  unfolding awaits_prefetch position_ms
  track_deadline l none q now deadline = deadline
  track_deadline l (some duration_ms) q now deadline =
      let until = duration_ms - position_ms l - prefetch_lead_ms in
      let restarts_in = previous_restart_threshold_ms - position_ms l in
      let opens =
        if awaits_prefetch l q && ltb 0 until
        then min deadline (now + from_millis until)
        else deadline in
      if ltb (position_ms l) previous_restart_threshold_ms
      then min opens (now + from_millis restarts_in)
      else opens

  unfoldable pub next_deadline_from : Transport words → W o → Option ℕ × W o
  unfolding publish_deadline end_deadline track_deadline
  next_deadline_from (loaded l) w =
      let (now, world) = Outside.clock o w.world in
      let (deadline, w₁) =
        end_deadline l l.completion_time now (publish_deadline l now)
          (record w { world = world }) in
      if l.paused
      then (none, w)
      else (some (track_deadline l l.position.duration_ms w.queue now deadline), w₁)
  next_deadline_from _ w = (none, w)

  unfoldable pub next_deadline : W o → Option ℕ × W o
  unfolding next_deadline_from
  next_deadline w = next_deadline_from w.transport w

  publish_in_time :
      (l : Loaded words) (now at : ℕ)
      → at ≤ publish_deadline l now
      → (let due = l.position.last_publish + position_update_interval in
          ((now < due) × (at ≤ due)) ⊎ ((due ≤ now) × (at ≤ now + position_update_interval)))
  unfolding publish_deadline
  publish_in_time l now at h =
      elim (dec_lt now (l.position.last_publish + position_update_interval)) [
        | yes early ↦ inl (early, ground (arith, h))
        | no late ↦ inr (omega arith, ground (arith, h))
      ]

  end_deadline-bounds :
      (l : Loaded words) (end : Option ℕ) (now deadline : ℕ) (w : W o)
      → now ≤ deadline
      → (now ≤ (end_deadline l end now deadline w).0)
        × ((end_deadline l end now deadline w).0 ≤ deadline)
  unfolding end_deadline
  end_deadline-bounds l none now deadline w h = (h, omega arith)
  end_deadline-bounds l (some end) now deadline w h = (omega (arith, h), omega arith)

  track_deadline-bounds :
      (l : Loaded words) (d : Option ℕ) (q : PlaybackQueue) (now deadline : ℕ)
      → now ≤ deadline
      → (now ≤ track_deadline l d q now deadline) × (track_deadline l d q now deadline ≤ deadline)
  unfolding track_deadline
  track_deadline-bounds l none q now deadline h = (h, omega arith)
  track_deadline-bounds l (some d) q now deadline h = ground arith

  -- While a track plays, the worker always has a deadline, which is not in the past. It comes at the
  -- latest one interval after the last publish; where that instant is not in the future, it comes at
  -- the latest one interval from now.
  pub next_deadline-soon :
      (l : Loaded words) (w : W o)
      → w.transport ≡ loaded l
      → l.paused ≡ false
      → (let now = (Outside.clock o w.world).0 in
          let due = l.position.last_publish + position_update_interval in
          (at : ℕ) × ((next_deadline w).0 ≡ some at)
          × (now ≤ at)
          × (((now < due) × (at ≤ due)) ⊎ ((due ≤ now) × (at ≤ now + position_update_interval))))
  unfolding next_deadline publish_deadline
  next_deadline-soon l w at playing =
      let (now, world) = Outside.clock o w.world in
      let latest = publish_deadline l now in
      let due = l.position.last_publish + position_update_interval in
      let fits : now ≤ latest = ground arith in
      let ended = end_deadline l l.completion_time now latest (record w { world = world }) in
      let first =
        end_deadline-bounds l l.completion_time now latest (record w { world = world }) fits in
      let second = track_deadline-bounds l l.position.duration_ms w.queue now ended.0 first.0 in
      (
        track_deadline l l.position.duration_ms w.queue now ended.0,
        rw (at, playing, next_deadline_from) refl,
        second.0,
        publish_in_time l now _ (omega (arith, second.1, first.1)),
      )

-- ===== src/Playback/Worker/Progress.antt =====
-- The tick: the end of the track, the position and the prefetch
-- (backend/src/audio/playback/worker/progress.rs). Times are in nanoseconds.
use nice_audio_player.Playback.Worker.Transport.{set_transport}
use nice_audio_player.Playback.Queue.Order.{same_bool}
use nice_audio_player.Playback.Worker.Start.{advance_after_track}
use nice_audio_player.Playback.Worker.Tracks.{W}
use nice_audio_player.Playback.Worker.State.{Loaded, loaded, Transport}
use nice_audio_player.Playback.Worker.Prefetch.{
  maybe_prefetch, adopt_prefetched, should_publish_position,
}
use nice_audio_player.Playback.Worker.Publish.{
  publish, at_frame, publish_state, publish_position, base_of, sample_position,
  loaded_can_go_previous,
}
use nice_audio_player.Playback.Worker.Outside.{Outside, Words}
use nice_audio_player.Prelude.{
  ◌==◌, ◌-◌, ℕ, some, not, none, leb, if◌then◌else◌, false, Option, Bool,
}

module _ {words : Words} (o : Outside words) where
  unfoldable pub finish_at : Loaded words → Option ℕ → W o → W o
  unfolding adopt_prefetched advance_after_track
  finish_at l none w = w
  finish_at l (some end) w =
      let (now, world) = Outside.stream_now o l.output.id w.world in
      let w₁ = record w { world = world } in
      let (adopted, w₂) = adopt_prefetched o l l.prefetch w₁ in
      let late = advance_after_track o none false w₂ in
      if not (leb end now) then w₁ else if adopted then w₂ else late

  unfoldable pub finish_from : Transport words → W o → W o
  unfolding finish_at
  finish_from (loaded l) w = if l.paused then w else finish_at l l.completion_time w
  finish_from _ w = w

  unfoldable pub finish_if_due : W o → W o
  unfolding finish_from
  finish_if_due w = finish_from w.transport w

  -- The position of the output is known: it is published once a second.
  unfoldable pub move_position : Loaded words → ℕ → W o → W o
  unfolding should_publish_position publish_position
  move_position l frame w =
      let changed = not (frame == l.position.frame) in
      let (now, world) = Outside.clock o w.world in
      let l₁ = at_frame o l frame in
      let w₁ = record w { world = world } in
      let (later, world₁) = Outside.clock o world in
      let l₂ = record l₁ { position = record (l₁.position) { last_publish = later } } in
      if should_publish_position (now - l.position.last_publish) changed
      then publish_position o (set_transport o (loaded l₂) (record w₁ { world = world₁ }))
      else set_transport o (loaded l₁) w₁

  unfoldable pub published_can_go_previous : W o → Bool
  unfolding base_of
  published_can_go_previous w = (base_of w.snapshot.value).can_go_previous

  unfoldable pub publish_previous : Transport words → W o → W o
  unfolding loaded_can_go_previous published_can_go_previous publish_state
  publish_previous (loaded l) w =
      if same_bool (loaded_can_go_previous w.queue l) (published_can_go_previous w)
      then w
      else publish o w
  publish_previous _ w = w

  unfoldable pub update_position_from : Transport words → W o → W o
  unfolding sample_position move_position publish_previous
  update_position_from (loaded l) w =
      let (frame, w₁) = sample_position o l w in
      let w₂ = move_position l frame w₁ in if l.paused then w else publish_previous w₂.transport w₂
  update_position_from _ w = w

  unfoldable pub update_position : W o → W o
  unfolding update_position_from
  update_position w = update_position_from w.transport w

  unfoldable pub tick : W o → W o
  unfolding finish_if_due update_position maybe_prefetch
  tick w = maybe_prefetch o (update_position (finish_if_due w))

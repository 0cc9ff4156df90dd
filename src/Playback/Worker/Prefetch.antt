-- ===== src/Playback/Worker/Prefetch.antt =====
-- Gapless playback, the end of a track and the position
-- (backend/src/audio/playback/worker/prefetch.rs, progress.rs). Times are in nanoseconds.
use nice_audio_player.Playback.Worker.Types.{by_auto, PipelineError, CompressedSourceError}
use nice_audio_player.Playback.Worker.Failed.{settle, panic, Step}
use nice_audio_player.Playback.Worker.Seek.{rate_of, cancel_prefetch}
use nice_audio_player.Playback.Worker.Transport.{set_transport, cancel_prefetched}
use nice_audio_player.Playback.Worker.State.{
  pipeline_opened, told_loaded, next_queued, pipeline_cancelled, next_adopted, told_upcoming,
  load_spawned, next_cleared, prefetch_source, ready, unusable, PrefetchState, PlayableItem,
  Prefetch, loaded, PrefetchedTrack, from_start, Loaded, Transport,
}
use nice_audio_player.Playback.Queue.Order.{peek_natural, advance}
use nice_audio_player.Playback.Queue.State.{panicked, ok, err, natural, QueueEntry, id_of, next_id}
use nice_audio_player.Playback.Worker.Tracks.{emit, item_of, W}
use nice_audio_player.Playback.Worker.Publish.{publish, publish_state, publish_queue, position_ms}
use nice_audio_player.Playback.Worker.Outside.{good, bad, Opened, Answered, Outside, Words}
use nice_audio_player.Prelude.{
  ◌||◌, ◌^◌, ◌==◌, ◌-◌, ◌+◌, ◌*◌, ◌&&◌, ◌%◌, ℕ, true, some, none, ltb, leb, is_some, if◌then◌else◌,
  false, Option, Bool,
}

abbrev pub prefetch_lead_ms : ℕ
prefetch_lead_ms = 10000

abbrev pub position_update_interval : ℕ
position_update_interval = 1000000000

abbrev pub from_millis : ℕ → ℕ
from_millis ms = ms * 1000000

abbrev same_id : Option ℕ → ℕ → Bool
same_id none id = false
same_id (some a) id = a == id

unfoldable pub should_publish_position : ℕ → Bool → Bool
should_publish_position elapsed position_changed =
    leb position_update_interval elapsed && position_changed

module _ {words : Words} (o : Outside words) where
  open words use {Source, extension}

  -- The id of the entry that plays next.
  unfoldable pub follows : W o → ℕ → Bool
  unfolding peek_natural
  follows w entry_id = same_id (id_of (peek_natural w.queue)) entry_id

  abbrev pub set_prefetch : Loaded words → ℕ → PrefetchState words → W o → W o
  set_prefetch l entry_id state w =
      set_transport o
        (loaded (record l { prefetch = some (record { entry_id = entry_id; state = state }) })) w

  unfoldable pub prefetch_begun : Loaded words → ℕ → PlayableItem words → ℕ → Bool → W o → W o
  prefetch_begun l entry_id item load true w =
      set_prefetch l entry_id (prefetch_source load item) (emit o (load_spawned load) w)
  prefetch_begun l entry_id item load false w = set_prefetch l entry_id unusable w

  unfoldable pub prefetch_item : Loaded words → ℕ → Option (PlayableItem words) → W o → W o
  unfolding prefetch_begun
  prefetch_item l entry_id none w = set_prefetch l entry_id unusable w
  prefetch_item l entry_id (some item) w =
      let w₁ = emit o (told_upcoming item) w in
      let load = (w₁.source_load_ids + 1) % 2 ^ 64 in
      let (spawned, world) = Outside.spawn_load o item.track.file load w₁.world in
      prefetch_begun l entry_id item load spawned
        (record w₁ { source_load_ids = load; world = world })

  unfoldable pub prefetch_after : Loaded words → Option QueueEntry → W o → W o
  unfolding item_of prefetch_item
  prefetch_after l none w = w
  prefetch_after l (some entry) w =
      let (item, w₁) = item_of o entry w in prefetch_item l entry.id item w₁

  unfoldable pub prefetch_near_end : Loaded words → Option ℕ → W o → W o
  unfolding position_ms peek_natural prefetch_after
  prefetch_near_end l none w = w
  prefetch_near_end l (some duration_ms) w =
      if ltb prefetch_lead_ms (duration_ms - position_ms l)
      then w
      else prefetch_after l (peek_natural w.queue) w

  unfoldable pub maybe_prefetch_from : Transport words → W o → W o
  unfolding prefetch_near_end
  maybe_prefetch_from (loaded l) w =
      if is_some l.prefetch || (is_some l.seek || l.paused)
      then w
      else prefetch_near_end l l.position.duration_ms w
  maybe_prefetch_from _ w = w

  unfoldable pub maybe_prefetch : W o → W o
  unfolding maybe_prefetch_from
  maybe_prefetch w = maybe_prefetch_from w.transport w

  unfoldable pub prefetch_opened :
      Loaded words
      → ℕ
      → PlayableItem words
      → Source
      → ℕ
      → Answered words (Opened words) PipelineError
      → W o
      → W o
  prefetch_opened l entry_id item source pipeline (good opened) w =
      set_prefetch l entry_id
        (ready (record {
          item = item;
          source = source;
          pipeline = pipeline;
          duration_ms = opened.duration_ms;
          completion_time = none;
        }))
        (emit o (next_queued l.pipeline pipeline) (emit o (pipeline_opened pipeline) w))
  prefetch_opened l entry_id item source pipeline (bad e) w = set_prefetch l entry_id unusable w

  -- The source of the prefetch was read, and its thread is joined.
  unfoldable pub prefetch_loaded :
      Loaded words
      → ℕ
      → PlayableItem words
      → Answered words Source CompressedSourceError
      → W o
      → W o
  unfolding prefetch_opened
  prefetch_loaded l entry_id item (bad e) w = set_prefetch l entry_id unusable w
  prefetch_loaded l entry_id item (good source) w =
      let pipeline = (w.next_pipeline_id + 1) % 2 ^ 64 in
      let (answer, world) =
        Outside.open_prefetch o source (extension item.track.file) pipeline l.output.config
          w.world in
      prefetch_opened l entry_id item source pipeline answer
        (record w { next_pipeline_id = pipeline; world = world })

  unfoldable pub give_up : Loaded words → Option (Prefetch words) → W o → W o
  unfolding cancel_prefetched
  give_up l none w = w
  give_up l (some prefetch) w =
      set_prefetch l prefetch.entry_id unusable
        (cancel_prefetched o prefetch.state (emit o next_cleared w))

  unfoldable pub prefetch_unusable_from : Transport words → W o → W o
  unfolding give_up
  prefetch_unusable_from (loaded l) w = give_up l l.prefetch w
  prefetch_unusable_from _ w = w

  unfoldable pub prefetch_unusable : W o → W o
  unfolding prefetch_unusable_from
  prefetch_unusable w = prefetch_unusable_from w.transport w

  unfoldable pub revalidate : Loaded words → Option (Prefetch words) → W o → W o
  unfolding follows cancel_prefetch
  revalidate l none w = w
  revalidate l (some prefetch) w = if follows w prefetch.entry_id then w else cancel_prefetch o l w

  unfoldable pub revalidate_from : Transport words → W o → W o
  unfolding revalidate
  revalidate_from (loaded l) w = revalidate l l.prefetch w
  revalidate_from _ w = w

  unfoldable pub revalidate_prefetch : W o → W o
  unfolding revalidate_from
  revalidate_prefetch w = revalidate_from w.transport w

  -- The prefetched track in the place of the loaded one, once the queue has advanced.
  unfoldable pub adopted : Loaded words → PrefetchedTrack words → W o → W o
  unfolding next_id from_start
  adopted l next w =
      let (now, world) = Outside.clock o w.world in
      let w₁ = emit o (next_adopted next.pipeline) (emit o (pipeline_cancelled l.pipeline) w) in
      let w₂ = emit o (told_loaded w₁.ids next.item) w₁ in
      let l₁ : Loaded words = record {
        id = w₁.ids;
        item = next.item;
        started_by = by_auto;
        source = next.source;
        output = l.output;
        pipeline = next.pipeline;
        position = from_start (rate_of o l.output) next.duration_ms now;
        completion_time = next.completion_time;
        paused = false;
        seek = none;
        prefetch = none;
      } in
      record w₂ {
        ids = next_id w₁.ids;
        world = world;
        last_item = some next.item;
        skipped_in_a_row = 0;
        transport = loaded l₁;
      }

  unfoldable pub adopt : Loaded words → PrefetchedTrack words → W o → W o
  unfolding adopted publish_queue publish_state
  adopt l next w = publish o (publish_queue o (adopted l next w))

  unfoldable pub advance_to_adopt :
      Loaded words → PrefetchedTrack words → Step o (Option QueueEntry) → W o → W o
  unfolding adopt
  advance_to_adopt l next panicked w = panic o w
  advance_to_adopt l next (err e s) w = adopt l next (settle o s w)
  advance_to_adopt l next (ok entry s) w = adopt l next (settle o s w)

  unfoldable pub adopt_state : Loaded words → ℕ → PrefetchState words → W o → Bool × W o
  unfolding follows advance advance_to_adopt
  adopt_state l entry_id (ready next) w =
      if follows w entry_id
      then (true, advance_to_adopt l next (advance (Outside.rand o) w.queue natural w.gen) w)
      else (false, w)
  adopt_state l entry_id _ w = (false, w)

  unfoldable pub adopt_prefetched : Loaded words → Option (Prefetch words) → W o → Bool × W o
  unfolding adopt_state
  adopt_prefetched l none w = (false, w)
  adopt_prefetched l (some prefetch) w = adopt_state l prefetch.entry_id prefetch.state w

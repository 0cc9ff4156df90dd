-- ===== src/Tests/Worker.antt =====
-- A run of the playback worker on a library of one track and a device that always plays.
use nice_audio_player.Playback.Worker.Failures.{fail_start-output}
use nice_audio_player.Playback.Worker.Prefetch.{position_update_interval}
use nice_audio_player.Playback.Worker.State.{failed}
use nice_audio_player.Playback.Worker.Failed.{fail_start}
use nice_audio_player.Playback.Worker.Deadline.{next_deadline-soon, next_deadline}
use nice_audio_player.Playback.Worker.Bounds.{absolute-sought}
use nice_audio_player.Playback.Worker.Late.{handle_event-late, of_pipeline, source_loaded-late}
use nice_audio_player.Playback.Worker.Resolving.{resolve_loop-answers}
use nice_audio_player.Playback.Worker.Seek.{rate_of, sought, seek_position}
use nice_audio_player.BTree
use nice_audio_player.Slices.{head, tail_from}
use nice_audio_player.Timebase.{millis_to_frame}
use nice_audio_player.Playback.Worker.Types.{
  output_stream_start_failed, stream_start, StartFailure, scope, by_jump, no_default_output_device,
  system_default,
}
use nice_audio_player.Playback.Worker.Commands.{
  final_frames, conversion_failed, decode_stopped_event, source_loaded, start, prebuffer_ready,
  next,
}
use nice_audio_player.Playback.Worker.Handle.{command, shutdown, handle_event}
use nice_audio_player.Playback.Worker.Tracks.{resolve_loop, W}
use nice_audio_player.Playback.Worker.Balance.Runs.{
  begins, takes_event, Runs-held, takes_command, shutdown-Settled, ticks, Runs-IsValid, Runs,
  Runs-Apart, Runs-panicked,
}
use nice_audio_player.Playback.Queue.Rand.{Rand}
use nice_audio_player.Playback.Queue.Invariant.{new-IsValid, IsValid}
use nice_audio_player.Playback.Queue.State.{is_empty, PlaybackQueue, len, all}
use nice_audio_player.Playback.Worker.State.{
  StartRequest, from_start, absolute, Loaded, loaded, stopped, PlaybackQueueSnapshot,
  PlaybackSnapshot,
}
use nice_audio_player.Playback.Worker.Balance.{
  kept_token, load_token, held, decode_token, PreviousValid, reply_token, settled, Apart, issued,
  Token,
}
use nice_audio_player.Playback.Worker.Outside.{bad, good, Outside, Opened, Words, PlayableTrack}
use nice_audio_player.Prelude.{
  ◌<◌, ◌⊎◌, ◌≤◌, is_some, ◌≡◌, ◌∷◌, ◌==◌, ◌-◌, ◌+◌, ℕ, true, some, refl, none, leb, false, arith,
  [], Option, List,
}
use nice_audio_player.Playback.Queue.State.{new}
use nice_audio_player.Playback.Worker.Progress.{tick}
use nice_audio_player.Playback.Worker.State.{idle}
use nice_audio_player.Playback.Worker.Balance.Runs.{
  Runs, shutdown-Settled, Runs-held, Runs-panicked, Runs-IsValid, Runs-Apart, begins, takes_command,
  takes_event, ticks,
}

abbrev plain_words : Words
plain_words = record {
  Text = ℕ;
  same_text = λ a b. a == b;
  Core = Unit;
  File = ℕ;
  extension = λ f. f;
  Source = Unit;
  Volume = ℕ;
  in_range = λ v. leb v 100;
  same_volume = λ a b. a == b;
  silence = 0;
  Plan = ℕ;
  output_rate = λ p. 48000;
  source_rate = λ p. p;
  Conversion = Unit;
  channel_conversion = λ p. tt;
}

abbrev unmoved : Rand
unmoved = record {
  Gen = Unit;
  shuffle_items = λ xs g. (xs, g);
  random_range = λ lo hi g. (lo, g);
  shuffle_same = λ xs g p. refl;
  range_bounds = λ lo hi g h. (omega arith, h);
}

abbrev track_of : ℕ → PlayableTrack plain_words
track_of id = record {
  id = id;
  track = record { core = tt; album_title = none };
  file = 5;
  file_format = none;
  bit_depth = none;
  bitrate_kbps = none;
}

abbrev some_tracks : List ℕ → List (Option (PlayableTrack plain_words))
some_tracks [] = []
some_tracks (id ∷ ids) = some (track_of id) ∷ some_tracks ids

abbrev two_minutes : Opened plain_words
two_minutes = record { duration_ms = some 120000; start_output_frame = 0 }

abbrev quiet_room : Outside plain_words
quiet_room = record {
  rand = unmoved;
  World = Unit;
  clock = λ w. (0, w);
  read_tracks = λ ids w. (good (some_tracks ids), w);
  spawn_load = λ f id w. (true, w);
  open_start = λ source ext id selection stream w.
      (good (record { device_id = 1; device_name = 2; processing_plan = 44100 }, two_minutes), w);
  open_prefetch = λ source ext id config w. (good two_minutes, w);
  open_seek = λ source ext id config target w. (good two_minutes, w);
  start_stream = λ id w. (none, w);
  pause_stream = λ id w. (none, w);
  stream_now = λ id w. (0, w);
  duration_since = λ a b. a - b;
  played_frame_position = λ id rate limit w. (0, w);
  resolve_device = λ selection w. (bad no_default_output_device, w);
}

abbrev no_queue_shown : PlaybackQueueSnapshot plain_words
no_queue_shown = record {
  current = none;
  history = [];
  history_count = 0;
  upcoming = [];
  upcoming_count = 0;
  repeat_mode = all;
  shuffle_enabled = false;
  can_restore_previous = false;
}

abbrev nothing_shown : PlaybackSnapshot plain_words
nothing_shown =
    stopped
      (record {
        volume = 100;
        muted = false;
        output_selection = system_default;
        can_go_previous = false;
        can_go_next = false;
      })
      none

abbrev fresh : W quiet_room
fresh = record {
  transport = idle;
  ids = 1;
  source_load_ids = 0;
  next_stream_id = 0;
  next_pipeline_id = 0;
  revision = 0;
  next_queue_revision = 0;
  seek_revision = 0;
  last_item = none;
  queue = new all false;
  previous_queue = none;
  skipped_in_a_row = 0;
  volume_state = record { volume = 100; muted = false };
  output_selection = system_default;
  snapshot = record { revision = 0; value = nothing_shown };
  position = none;
  queue_snapshot = record { revision = 0; value = no_queue_shown };
  cache = [];
  gen = tt;
  world = tt;
  log = [];
  panicked = false;
}

-- A caller starts two tracks, the first is read and prebuffered, and the caller goes to the next.
abbrev started_one : W quiet_room
started_one = command quiet_room (start (7 ∷ (8 ∷ [])) 0 42) fresh

abbrev playing_one : W quiet_room
playing_one =
    handle_event quiet_room (prebuffer_ready 1)
      (handle_event quiet_room (source_loaded 1 (good tt)) started_one)

abbrev moved_on_one : W quiet_room
moved_on_one = tick quiet_room (command quiet_room (next 43) playing_one)

moved_on_Runs : Runs quiet_room moved_on_one
unfolding new
moved_on_Runs = ticks (
    takes_command
      (takes_event
        (takes_event
          (takes_command (begins refl refl (new-IsValid all false) refl refl)
            (start (7 ∷ (8 ∷ [])) 0 42) (omega arith))
          (source_loaded 1 (good tt)))
        (prebuffer_ready 1))
      (next 43) tt)

abbrev one_each : Token → ℕ
one_each (reply_token n) = 1
one_each (decode_token n) = 1
one_each (load_token n) = 1
one_each kept_token = 0

shutdown-Settled_example :
    issued one_each (shutdown quiet_room moved_on_one).log
    ≡ settled one_each (shutdown quiet_room moved_on_one).log
shutdown-Settled_example = shutdown-Settled one_each refl moved_on_one moved_on_Runs

Runs-held_example :
    issued one_each moved_on_one.log
    ≡ settled one_each moved_on_one.log + held one_each moved_on_one.transport
Runs-held_example = Runs-held one_each refl moved_on_one moved_on_Runs

Runs-panicked_example : moved_on_one.panicked ≡ false
Runs-panicked_example = Runs-panicked moved_on_one moved_on_Runs

Runs-IsValid_example : IsValid moved_on_one.queue × PreviousValid moved_on_one.previous_queue
Runs-IsValid_example = Runs-IsValid moved_on_one moved_on_Runs

Runs-Apart_example : Apart moved_on_one.transport
Runs-Apart_example = Runs-Apart moved_on_one moved_on_Runs

-- A track that plays from a pipeline, and what is asked of it.
abbrev one_playing : Loaded plain_words
one_playing = record {
  id = 1;
  item = record { queue_item_id = 1; track = track_of 7 };
  started_by = by_jump;
  source = tt;
  output = record {
    id = 1;
    config = record { device_id = 1; device_name = 2; processing_plan = 44100 };
  };
  pipeline = 3;
  position = from_start 48000 (some 120000) 0;
  completion_time = none;
  paused = false;
  seek = none;
  prefetch = none;
}

abbrev playing_worker : W quiet_room
playing_worker = record fresh { transport = loaded one_playing }

absolute-sought_example :
    absolute
      (seek_position quiet_room one_playing
        (sought quiet_room one_playing 120000 none 4 two_minutes)
        0)
      9999999
    ≤ millis_to_frame 120000 (rate_of quiet_room one_playing.output)
absolute-sought_example = absolute-sought quiet_room one_playing 120000 none 4 two_minutes 0 9999999

abbrev two_queued : PlaybackQueue
two_queued = record (new all false) {
  arranged = record { id = 1; track_id = 7 } ∷ (record { id = 2; track_id = 8 } ∷ []);
  next_item_id = 3;
}

two_queued-IsValid : IsValid two_queued
unfolding new is_empty
two_queued-IsValid = record {
  unique = λ i. ground arith;
  fresh = λ i h. ground arith;
  same = λ p. refl;
  within = omega arith;
  shown = λ e. refl;
}

resolve_loop-answers_example :
    is_some (resolve_loop quiet_room 3 (record fresh { queue = two_queued })).0 ≡ true
unfolding len new
resolve_loop-answers_example =
    resolve_loop-answers quiet_room 3 (record fresh { queue = two_queued }) two_queued-IsValid
      (omega arith)

next_deadline-soon_example :
    (let now = (Outside.clock quiet_room playing_worker.world).0 in
      let due = one_playing.position.last_publish + position_update_interval in
      (at : ℕ) × ((next_deadline quiet_room playing_worker).0 ≡ some at)
      × (now ≤ at)
      × (((now < due) × (at ≤ due)) ⊎ ((due ≤ now) × (at ≤ now + position_update_interval))))
next_deadline-soon_example = next_deadline-soon quiet_room one_playing playing_worker refl refl

abbrev asked : StartRequest plain_words
asked = record {
  id = 1;
  item = record { queue_item_id = 1; track = track_of 7 };
  started_by = by_jump;
  responder = some 42;
  start_paused = false;
  resume_at_ms = none;
  selection = none;
}

abbrev no_stream : StartFailure
no_stream = record { phase = stream_start; code = output_stream_start_failed }

fail_start-output_example :
    ((fail_start quiet_room asked no_stream fresh).queue ≡ fresh.queue)
    × ((fail_start quiet_room asked no_stream fresh).transport
        ≡ failed (some 1) output_stream_start_failed false)
unfolding scope
fail_start-output_example = fail_start-output quiet_room asked no_stream fresh refl

-- The worker has moved on: the decode thread that it opened first is cancelled, and its load was
-- joined.
handle_event-late_example :
    (handle_event quiet_room (prebuffer_ready 1) moved_on_one ≡ moved_on_one)
    × (handle_event quiet_room (decode_stopped_event 1) moved_on_one ≡ moved_on_one)
    × (handle_event quiet_room (conversion_failed 1) moved_on_one ≡ moved_on_one)
    × (handle_event quiet_room (final_frames 1 5) moved_on_one ≡ moved_on_one)
unfolding command tick handle_event new tail_from head BTree.insert
handle_event-late_example = handle_event-late quiet_room 1 moved_on_one moved_on_Runs 5 refl

source_loaded-late_example :
    handle_event quiet_room (source_loaded 1 (good tt)) moved_on_one ≡ moved_on_one
unfolding command tick handle_event new tail_from head BTree.insert
source_loaded-late_example =
    source_loaded-late quiet_room 1 moved_on_one moved_on_Runs (good tt) refl

one_decoded : issued (of_pipeline 1) moved_on_one.log ≡ 1
unfolding command tick handle_event new tail_from head BTree.insert
one_decoded = refl

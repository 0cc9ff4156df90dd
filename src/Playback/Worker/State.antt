-- ===== src/Playback/Worker/State.antt =====
-- The state of the worker (backend/src/audio/playback/session.rs, worker.rs, input.rs) and the log of
-- what it does to others, the newest first.
use nice_audio_player.Prelude.{ℕ, unwrap_or, some, none, min, Option, List, Bool}
use nice_audio_player.Timebase.{millis_to_frame}
use nice_audio_player.Playback.Queue.State.{
  PlaybackQueue, PlaybackRepeatMode, saturating_add, u64_max,
}
use nice_audio_player.Playback.Queue.Rand.{Rand}
use nice_audio_player.Playback.Worker.Types.{
  PlaybackFailureCode, PlaybackServiceError, SessionStartedBy, AudioOutputSelection, Versioned,
}
use nice_audio_player.Playback.Worker.Outside.{
  Words, NowPlayingTrack, PlayableTrack, PreparedOutputConfig, AudioOutputDeviceIdentity, Outside,
}

pub record Position : Type 0 where
  pub sample_rate : ℕ
  pub duration_ms : Option ℕ
  pub frame : ℕ
  pub base_frame : ℕ
  pub remaining_frames : Option ℕ
  pub last_publish : ℕ

abbrev pub map_option : {A B : Type 0} → (A → B) → Option A → Option B
map_option f none = none
map_option f (some a) = some (f a)

unfoldable pub from_start : ℕ → Option ℕ → ℕ → Position
unfolding millis_to_frame
from_start sample_rate duration_ms now = record {
  sample_rate = sample_rate;
  duration_ms = duration_ms;
  frame = 0;
  base_frame = 0;
  remaining_frames = map_option (λ d. millis_to_frame d sample_rate) duration_ms;
  last_publish = now;
}

unfoldable pub absolute : Position → ℕ → ℕ
absolute p relative_frame =
    min (saturating_add p.base_frame relative_frame)
      (saturating_add p.base_frame (unwrap_or p.remaining_frames u64_max))

module _ (words : Words) where
  open words use {Text, Core, File, Source, Volume, Plan, Conversion}

  pub record PlayableItem : Type 0 where
    pub queue_item_id : ℕ
    pub track : PlayableTrack words

  -- Replies and threads are known by a number each.
  pub record StartRequest : Type 0 where
    pub id : ℕ
    pub item : PlayableItem
    pub started_by : SessionStartedBy
    pub responder : Option ℕ
    pub start_paused : Bool
    pub resume_at_ms : Option ℕ
    pub selection : Option (AudioOutputSelection Text)

  pub record Output : Type 0 where
    pub id : ℕ
    pub config : PreparedOutputConfig words

  pub record Prebuffering : Type 0 where
    pub source : Source
    pub output : Output
    pub pipeline : ℕ
    pub duration_ms : Option ℕ

  pub data LoadStage : Type 0 where
    loading_source : ℕ → LoadStage
    prebuffering : Prebuffering → LoadStage

  pub record PrefetchedTrack : Type 0 where
    pub item : PlayableItem
    pub source : Source
    pub pipeline : ℕ
    pub duration_ms : Option ℕ
    pub completion_time : Option ℕ

  pub data PrefetchState : Type 0 where
    prefetch_source : ℕ → PlayableItem → PrefetchState
    ready : PrefetchedTrack → PrefetchState
    unusable : PrefetchState

  pub record Prefetch : Type 0 where
    pub entry_id : ℕ
    pub state : PrefetchState

  pub record SeekInFlight : Type 0 where
    pub pipeline : ℕ
    pub output_base_frame : ℕ
    pub remaining_frames : ℕ
    pub duration_ms : ℕ
    pub responder : Option ℕ

  pub record Loaded : Type 0 where
    pub id : ℕ
    pub item : PlayableItem
    pub started_by : SessionStartedBy
    pub source : Source
    pub output : Output
    pub pipeline : ℕ
    pub position : Position
    pub completion_time : Option ℕ
    pub paused : Bool
    pub seek : Option SeekInFlight
    pub prefetch : Option Prefetch

  pub data Transport : Type 0 where
    idle : Transport
    loading : StartRequest → LoadStage → Transport
    loaded : Loaded → Transport
    failed : Option ℕ → PlaybackFailureCode → Bool → Transport

  pub record VolumeState : Type 0 where
    pub volume : Volume
    pub muted : Bool

  pub record SnapshotBase : Type 0 where
    pub volume : Volume
    pub muted : Bool
    pub output_selection : AudioOutputSelection Text
    pub can_go_previous : Bool
    pub can_go_next : Bool

  pub record PlaybackItem : Type 0 where
    pub queue_item_id : ℕ
    pub track : NowPlayingTrack words

  pub record ActiveSession : Type 0 where
    pub item : PlaybackItem
    pub started_by : SessionStartedBy
    pub playback_id : ℕ
    pub position_ms : ℕ
    pub seek_revision : ℕ
    pub duration_ms : Option ℕ
    pub output_device : AudioOutputDeviceIdentity words
    pub channel_conversion : Conversion
    pub source_format : Text
    pub source_bit_depth : Option ℕ
    pub source_bitrate_kbps : Option ℕ
    pub source_sample_rate : ℕ
    pub output_sample_rate : ℕ
    pub resampling_active : Bool

  pub data PlaybackSnapshot : Type 0 where
    stopped : SnapshotBase → Option PlaybackItem → PlaybackSnapshot
    playing : SnapshotBase → ActiveSession → PlaybackSnapshot
    paused_at : SnapshotBase → ActiveSession → PlaybackSnapshot
    stopped_failed :
        SnapshotBase
        → Option PlaybackItem
        → Option ℕ
        → PlaybackFailureCode
        → Bool
        → PlaybackSnapshot

  pub record PlaybackPosition : Type 0 where
    pub playback_id : ℕ
    pub position_ms : ℕ
    pub seek_revision : ℕ

  pub record PlaybackQueueItem : Type 0 where
    pub queue_item_id : ℕ
    pub core : Core
    pub album : Option Text

  -- `list`, which the renderer does not see, is the queue that the snapshot was taken of.
  pub record PlaybackQueueSnapshot : Type 0 where
    pub current : Option PlaybackQueueItem
    pub history : List PlaybackQueueItem
    pub history_count : ℕ
    pub upcoming : List PlaybackQueueItem
    pub upcoming_count : ℕ
    pub repeat_mode : PlaybackRepeatMode
    pub shuffle_enabled : Bool
    pub can_restore_previous : Bool

  pub record PlaybackPreferences : Type 0 where
    pub volume : Volume
    pub muted : Bool
    pub output_selection : AudioOutputSelection Text
    pub repeat_mode : PlaybackRepeatMode
    pub shuffle_enabled : Bool

  pub data Answer : Type 0 where
    refused : PlaybackServiceError → Answer
    shows : Versioned PlaybackSnapshot → Answer
    shows_queue : Versioned PlaybackQueueSnapshot → Answer

  pub data Event : Type 0 where
    asked : ℕ → Event
    answered : ℕ → Answer → Event
    pipeline_opened pipeline_cancelled : ℕ → Event
    load_spawned load_cancelled load_joined : ℕ → Event
    playback_changed queue_state_changed position_changed : Event
    track_skipped : Option PlaybackItem → PlaybackFailureCode → Event
    told_loaded : ℕ → PlayableItem → Event
    told_upcoming : PlayableItem → Event
    preferences_saved : PlaybackPreferences → Event
    gain_stored : Volume → Event
    next_queued : ℕ → ℕ → Event
    next_cleared timing_cleared : Event
    queue_switched next_adopted : ℕ → Event

module _ {words : Words} (o : Outside words) where
  open words use {Text, Volume}

  pub record Worker : Type 0 where
    pub transport : Transport words
    pub ids : ℕ
    pub source_load_ids : ℕ
    pub next_stream_id : ℕ
    pub next_pipeline_id : ℕ
    pub revision : ℕ
    pub next_queue_revision : ℕ
    pub seek_revision : ℕ
    pub last_item : Option (PlayableItem words)
    pub queue : PlaybackQueue
    pub previous_queue : Option PlaybackQueue
    pub skipped_in_a_row : ℕ
    pub volume_state : VolumeState words
    pub output_selection : AudioOutputSelection Text
    pub snapshot : Versioned (PlaybackSnapshot words)
    pub position : Option (PlaybackPosition words)
    pub queue_snapshot : Versioned (PlaybackQueueSnapshot words)
    pub cache : List (ℕ × PlayableTrack words)
    pub gen : Rand.Gen (Outside.rand o)
    pub world : Outside.World o
    pub log : List (Event words)
    pub panicked : Bool

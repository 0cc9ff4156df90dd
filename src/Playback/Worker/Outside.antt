-- ===== src/Playback/Worker/Outside.antt =====
-- What the worker calls and does not own: the clock, the audio device and its streams, the threads
-- that read and decode files, the database, and the random numbers of the queue. `World` is all that
-- these may depend on, and every call may change it.
use nice_audio_player.Prelude.{ℕ, Option, List, Bool}
use nice_audio_player.Playback.Queue.Rand.{Rand}
use nice_audio_player.Playback.Worker.Types.{
  PlaybackServiceError, AudioOutputError, DeviceResolutionError, PipelineError,
  AudioOutputSelection,
}

-- The data that the worker only carries and compares.
pub record Words : Type 1 where
  pub Text : Type 0
  pub same_text : Text → Text → Bool
  pub Core : Type 0  -- `TrackCore`
  pub File : Type 0  -- `ValidatedAudioFile`
  pub extension : File → Text
  pub Source : Type 0  -- `CompressedAudioSource`
  pub Volume : Type 0  -- `f32`
  pub in_range : Volume → Bool
  pub same_volume : Volume → Volume → Bool
  pub silence : Volume
  pub Plan : Type 0  -- `OutputProcessingPlan`
  pub output_rate : Plan → ℕ
  pub source_rate : Plan → ℕ
  pub Conversion : Type 0
  pub channel_conversion : Plan → Conversion

module _ (words : Words) where
  open words use {Text, Core, File, Source, Plan}

  pub record NowPlayingTrack : Type 0 where
    pub core : Core
    pub album_title : Option Text

  pub record PlayableTrack : Type 0 where
    pub id : ℕ
    pub track : NowPlayingTrack
    pub file : File
    pub file_format : Option Text
    pub bit_depth : Option ℕ
    pub bitrate_kbps : Option ℕ

  pub record PreparedOutputConfig : Type 0 where
    pub device_id : Text
    pub device_name : Text
    pub processing_plan : Plan

  pub record AudioOutputDeviceIdentity : Type 0 where
    pub id : Text
    pub name : Text

  -- What a pipeline that opened reports; its id is the one that was asked for.
  pub record Opened : Type 0 where
    pub duration_ms : Option ℕ
    pub start_output_frame : ℕ

  pub data Answered (A E : Type 0) : Type 0 where
    good : A → Answered A E
    bad : E → Answered A E

  pub record Outside : Type 1 where
    pub rand : Rand
    pub World : Type 0
    pub clock : World → ℕ × World
    pub read_tracks :
        List ℕ → World → Answered (List (Option PlayableTrack)) PlaybackServiceError × World
    -- The load gets an id and answers under it.
    pub spawn_load : File → ℕ → World → Bool × World
    -- A pipeline is opened for a source with the extension of its file, under an id.
    pub open_start :
        Source
        → Text
        → ℕ
        → AudioOutputSelection Text
        → ℕ
        → World
        → Answered (PreparedOutputConfig × Opened) PipelineError × World
    pub open_prefetch :
        Source → Text → ℕ → PreparedOutputConfig → World → Answered Opened PipelineError × World
    pub open_seek :
        Source → Text → ℕ → PreparedOutputConfig → ℕ → World → Answered Opened PipelineError × World
    pub start_stream : ℕ → World → Option AudioOutputError × World
    pub pause_stream : ℕ → World → Option AudioOutputError × World
    pub stream_now : ℕ → World → ℕ × World
    -- `StreamInstant::duration_since`, in nanoseconds.
    pub duration_since : ℕ → ℕ → ℕ
    pub played_frame_position : ℕ → ℕ → Option ℕ → World → ℕ × World
    pub resolve_device :
        AudioOutputSelection Text
        → World
        → Answered AudioOutputDeviceIdentity DeviceResolutionError × World

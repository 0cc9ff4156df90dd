-- ===== src/Playback/Worker/Balance.antt =====
-- What the worker owes: replies that callers wait for, decode threads and threads that read a file
-- (backend/src/audio/playback/worker.rs and the files of worker/).
pub mod Cutting
pub mod Reading
pub mod Starting
pub mod Failing
pub mod Running
pub mod Seeking
pub mod Finishing
pub mod Following
pub mod Ticking
pub mod Stopping
pub mod Streaming
pub mod Commanding
pub mod Choosing
pub mod Queueing
pub mod Keeping
pub mod Commands
pub mod Handling
pub mod Runs
use nice_audio_player.Playback.Worker.Tracks.{resolve, W}
use nice_audio_player.Playback.Queue.Invariant.{IsValid}
use nice_audio_player.Playback.Worker.State.{
  load_joined, unusable, load_cancelled, load_spawned, idle, ready, pipeline_cancelled, failed,
  prebuffering, pipeline_opened, prefetch_source, asked, loaded, loading, loading_source, answered,
  PrefetchState, Transport, Event, Prefetch, SeekInFlight, LoadStage,
}
use nice_audio_player.Playback.Worker.Outside.{Outside, Words}
use nice_audio_player.Playback.Queue.State.{PlaybackQueue}
use nice_audio_player.Prelude.{
  ◌≡◌, ◌∷◌, ◌+◌, ◌&&◌, ℕ, some, none, is_some, false, arith, [], Option, List,
}

pub data Token : Type 0 where
  reply_token decode_token load_token : ℕ → Token
  kept_token : Token  -- what is in hand all the time that a step runs

module _ (weigh : Token → ℕ) where
  abbrev pub held_reply : Option ℕ → ℕ
  held_reply none = 0
  held_reply (some reply) = weigh (reply_token reply)

module _ {words : Words} (weigh : Token → ℕ) where
  abbrev pub held_stage : LoadStage words → ℕ
  held_stage (loading_source load) = weigh (load_token load)
  held_stage (prebuffering b) = weigh (decode_token b.pipeline)

  abbrev pub held_state : PrefetchState words → ℕ
  held_state (prefetch_source load item) = weigh (load_token load)
  held_state (ready next) = weigh (decode_token next.pipeline)
  held_state unusable = 0

  abbrev pub held_prefetch : Option (Prefetch words) → ℕ
  held_prefetch none = 0
  held_prefetch (some prefetch) = held_state prefetch.state

  abbrev pub held_seek : Option (SeekInFlight words) → ℕ
  held_seek none = 0
  held_seek (some seek) = weigh (decode_token seek.pipeline) + held_reply weigh seek.responder

  -- What the transport holds of it.
  abbrev pub held : Transport words → ℕ
  held idle = 0
  held (loading request stage) = held_reply weigh request.responder + held_stage stage
  held (loaded l) = weigh (decode_token l.pipeline) + (held_seek l.seek + held_prefetch l.prefetch)
  held (failed id code skipping) = 0

  -- What an event issues, and what it settles, on top of what was before it.
  abbrev pub issued_by : Event words → ℕ → ℕ
  issued_by (asked reply) n = weigh (reply_token reply) + n
  issued_by (pipeline_opened pipeline) n = weigh (decode_token pipeline) + n
  issued_by (load_spawned load) n = weigh (load_token load) + n
  issued_by _ n = n

  abbrev pub settled_by : Event words → ℕ → ℕ
  settled_by (answered reply answer) n = weigh (reply_token reply) + n
  settled_by (pipeline_cancelled pipeline) n = weigh (decode_token pipeline) + n
  settled_by (load_cancelled load) n = weigh (load_token load) + n
  settled_by (load_joined load) n = weigh (load_token load) + n
  settled_by _ n = n

  abbrev pub issued : List (Event words) → ℕ
  issued [] = 0
  issued (e ∷ log) = issued_by e (issued log)

  abbrev pub settled : List (Event words) → ℕ
  settled [] = weigh kept_token
  settled (e ∷ log) = settled_by e (settled log)

-- A seek in flight and a prefetch are not there at once.
abbrev pub Apart : {words : Words} → Transport words → Type 0
Apart (loaded l) = (is_some l.seek && is_some l.prefetch) ≡ false
Apart _ = Unit

abbrev pub PreviousValid : Option PlaybackQueue → Type 0
PreviousValid none = Unit
PreviousValid (some q) = IsValid q

module _ {words : Words} (weigh : Token → ℕ) (o : Outside words) where
  -- The log leaves `owed`, and the queues are valid.
  abbrev pub Sound : ℕ → W o → Type 0
  Sound owed w =
      (issued weigh w.log ≡ settled weigh w.log + owed)
      × (IsValid w.queue × (PreviousValid w.previous_queue × (w.panicked ≡ false)))

  -- The transport holds all that is owed, but for what the step that runs has in hand.
  abbrev pub Settled : ℕ → W o → Type 0
  Settled in_hand w = Sound (held weigh w.transport + in_hand) w × Apart w.transport

-- ===== src/Playback/Worker/Bounds.antt =====
-- Where a track is shown to be after a seek (backend/src/audio/playback/session.rs, worker/seek.rs).
use nice_audio_player.Playback.Worker.Seek.{rate_of, sought, seek_position}
use nice_audio_player.Playback.Worker.State.{Loaded, absolute}
use nice_audio_player.Timebase.{millis_to_frame}
use nice_audio_player.Playback.Worker.Outside.{Opened, Outside, Words}
use nice_audio_player.Prelude.{◌≤◌, ℕ, arith, Option}

module _ {words : Words} (o : Outside words) where
  -- After a seek the track is not shown past its end, whatever frame the output reports, also where
  -- the decoder answers the seek with a frame past the end.
  pub absolute-sought :
      (l : Loaded words) (d : ℕ) (responder : Option ℕ) (pipeline : ℕ) (opened : Opened words)
      → (now frame : ℕ)
      → absolute (seek_position o l (sought o l d responder pipeline opened) now) frame
        ≤ millis_to_frame d (rate_of o l.output)
  unfolding absolute seek_position sought
  absolute-sought l d responder pipeline opened now frame = omega arith

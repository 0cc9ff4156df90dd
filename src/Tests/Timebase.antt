-- ===== src/Tests/Timebase.antt =====
-- Conversions at the rates of a compact disc and of a film.
use nice_audio_player.Prelude.{◌≤◌, ◌+◌, ◌*◌, arith}
use nice_audio_player.Timebase.{frame_to_millis, millis_to_frame, rescale_frame}
use nice_audio_player.Timebase.Rounding.{
  RoundsDown, frame_to_millis-millis_to_frame, rescale_frame-RoundsDown,
}

rescale_frame-RoundsDown_example :
    RoundsDown (rescale_frame 22051 48000 44100) (22051 * 48000) 44100
rescale_frame-RoundsDown_example =
    rescale_frame-RoundsDown 22051 48000 44100 (omega arith) (omega arith) (omega arith)

frame_to_millis-millis_to_frame_example :
    (frame_to_millis (millis_to_frame 999 44100) 44100 ≤ 999)
    × (999 ≤ frame_to_millis (millis_to_frame 999 44100) 44100 + 1)
frame_to_millis-millis_to_frame_example =
    frame_to_millis-millis_to_frame 999 44100 (omega arith) (omega arith)

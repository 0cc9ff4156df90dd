-- ===== src/Timebase.antt =====
-- Conversions between frames and milliseconds (backend/src/audio/timebase.rs).
pub mod Rounding
use nice_audio_player.Prelude.{◌^◌, ◌==◌, ◌/◌, ◌-◌, ◌*◌, ℕ, min, if◌then◌else◌}
use nice_audio_player.Playback.Queue.State.{u64_max}

-- `u128::MAX`.
abbrev pub u128_max : ℕ
u128_max = 2 ^ 128 - 1

unfoldable pub scale : ℕ → ℕ → ℕ → ℕ
scale value numerator denominator =
    if denominator == 0 then 0 else min (min (value * numerator) u128_max / denominator) u64_max

unfoldable pub frame_to_millis : ℕ → ℕ → ℕ
unfolding scale
frame_to_millis frame sample_rate = scale frame 1000 sample_rate

unfoldable pub millis_to_frame : ℕ → ℕ → ℕ
unfolding scale
millis_to_frame millis sample_rate = scale millis sample_rate 1000

unfoldable pub rescale_frame : ℕ → ℕ → ℕ → ℕ
unfolding scale
rescale_frame frame to_rate from_rate = scale frame to_rate from_rate

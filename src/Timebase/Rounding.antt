-- ===== src/Timebase/Rounding.antt =====
-- How the conversions round (backend/src/audio/timebase.rs).
use native.Mathlib.Nat.{
  lt-mul-div-succ, div-mul-le_self, mul-le-mul, mul-le-mul_right, mul-le-mul_left,
  le_of_mul-le-mul_right, lt_of_mul-lt-mul_right, mul_comm,
}
use native.Mathlib.Decide.{dec_lt}
use nice_audio_player.Playback.Queue.State.{u64_max}
use nice_audio_player.Timebase.{u128_max, scale, frame_to_millis, millis_to_frame, rescale_frame}
use nice_audio_player.Prelude.{
  ◌≤◌, ◌<◌, ◌≡◌, ◌⊎◌, ◌+◌, ◌*◌, ◌/◌, ◌^◌, ◌-◌, ◌==◌, false, min, ℕ, inl, inr, arith, refl,
}

-- `u32::MAX`.
abbrev pub rate_max : ℕ
rate_max = 2 ^ 32 - 1

-- The number of wholes is at most what 64 bits hold. It is `total / size` rounded down, or the most
-- that 64 bits hold where the quotient is at least that.
abbrev pub RoundsDown : ℕ → ℕ → ℕ → Type 0
RoundsDown wholes total size =
    (wholes ≤ u64_max)
    × (((wholes * size ≤ total) × (total < (wholes + 1) * size))
        ⊎ ((wholes ≡ u64_max) × (u64_max * size ≤ total)))

-- Two 64-bit and 32-bit numbers have a product that 128 bits hold.
product_fits : (a b : ℕ) → a ≤ u64_max → b ≤ rate_max → a * b ≤ u128_max
product_fits a b h k = let most : a * b ≤ u64_max * rate_max = mul-le-mul h k in omega (arith, most)

scale-div :
    (value numerator denominator : ℕ)
    → 0 < denominator
    → value * numerator ≤ u128_max
    → scale value numerator denominator ≡ min (value * numerator / denominator) u64_max
unfolding scale
scale-div value numerator denominator positive fits =
    let known : (denominator == 0) ≡ false = ground (arith, positive) in
    let whole : min (value * numerator) u128_max ≡ value * numerator = omega (arith, fits) in
    rw (known, whole) refl

min-RoundsDown : (total size : ℕ) → 0 < size → RoundsDown (min (total / size) u64_max) total size
min-RoundsDown total size positive =
    let q = total / size in
    let below : q * size ≤ total = div-mul-le_self total size in
    let above : total < size * (q + 1) = lt-mul-div-succ total positive in
    elim (dec_lt u64_max q) [
      | yes large ↦
          let most : min q u64_max ≡ u64_max = omega (arith, large) in
          let less : u64_max * size ≤ q * size = mul-le-mul_right size (omega (arith, large)) in
          rw most (omega arith, inr (refl, omega (arith, less, below)))
      | no small ↦
          let all : min q u64_max ≡ q = omega (arith, small) in
          rw all (omega (arith, small), inl (below, rw (mul_comm (q + 1) size) above))
    ]

scale-RoundsDown :
    (value numerator denominator : ℕ)
    → 0 < denominator
    → value * numerator ≤ u128_max
    → RoundsDown (scale value numerator denominator) (value * numerator) denominator
scale-RoundsDown value numerator denominator positive fits =
    rw (scale-div value numerator denominator positive fits)
      (min-RoundsDown (value * numerator) denominator positive)

-- A frame count of 64 bits is rescaled from one 32-bit rate to another by exact arithmetic, rounded
-- down: nothing overflows on the way, and a result that 64 bits do not hold is the most they hold.
pub rescale_frame-RoundsDown :
    (frame to_rate from_rate : ℕ)
    → frame ≤ u64_max
    → to_rate ≤ rate_max
    → 0 < from_rate
    → RoundsDown (rescale_frame frame to_rate from_rate) (frame * to_rate) from_rate
unfolding rescale_frame
rescale_frame-RoundsDown frame to_rate from_rate h k positive =
    scale-RoundsDown frame to_rate from_rate positive (product_fits frame to_rate h k)

exact_of_fit :
    (wholes total size : ℕ)
    → 0 < size
    → total < u64_max * size
    → RoundsDown wholes total size
    → (wholes * size ≤ total) × (total < (wholes + 1) * size)
exact_of_fit wholes total size positive fits (small, inl h) = h
exact_of_fit wholes total size positive fits (small, inr h) = absurd (omega (arith, fits, h.1))

-- Milliseconds that are turned into frames and back are the same or one less, at any rate of a
-- thousand frames a second or more, as long as 64 bits hold the milliseconds times the rate.
pub frame_to_millis-millis_to_frame :
    (millis rate : ℕ)
    → 1000 ≤ rate
    → millis * rate ≤ u64_max
    → (frame_to_millis (millis_to_frame millis rate) rate ≤ millis)
      × (millis ≤ frame_to_millis (millis_to_frame millis rate) rate + 1)
unfolding frame_to_millis millis_to_frame
frame_to_millis-millis_to_frame millis rate fast fits =
    let frames = scale millis rate 1000 in
    let (low, high) =
      exact_of_fit frames (millis * rate) 1000 (omega arith) (omega (arith, fits))
        (scale-RoundsDown millis rate 1000 (omega arith) (omega (arith, fits))) in
    let room : u64_max * 1000 ≤ u64_max * rate = mul-le-mul_left u64_max fast in
    let back = scale frames 1000 rate in
    let (below, above) =
      exact_of_fit back (frames * 1000) rate (omega (arith, fast)) (omega (arith, low, fits, room))
        (scale-RoundsDown frames 1000 rate (omega (arith, fast)) (omega (arith, low, fits))) in
    let near : millis * rate < (back + 2) * rate = omega (arith, high, above, fast) in
    let less : millis < back + 2 = lt_of_mul-lt-mul_right rate near in
    (
      le_of_mul-le-mul_right {k = rate} (omega (arith, below, low)) (omega (arith, fast)),
      omega (arith, less),
    )

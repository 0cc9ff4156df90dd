-- ===== src/Slices.antt =====
-- backend/src/slices.rs: prefixes and suffixes that clamp to the slice.
use nice_audio_player.Prelude.{
  ℕ, ◌≡◌, Option, none, some, List, [], leb, if◌then◌else◌, unwrap_or, length, take, drop,
  take-past, drop_of_length-le, arith,
}

-- `slice.get(..n)` and `slice.get(n..)` of the standard library: a range past the end is `None`.
module _ {ℓ} {A : Type ℓ} where
  abbrev pub get_to : List A → ℕ → Option (List A)
  get_to slice n = if leb n (length slice) then some (take n slice) else none

  abbrev pub get_from : List A → ℕ → Option (List A)
  get_from slice n = if leb n (length slice) then some (drop n slice) else none

  unfoldable pub head : List A → ℕ → List A
  head slice n = unwrap_or (get_to slice n) slice

  unfoldable pub tail_from : List A → ℕ → List A
  tail_from slice n = unwrap_or (get_from slice n) []

  -- The clamped prefix is `take`, whatever the index.
  pub head-eq-take : (slice : List A) (n : ℕ) → head slice n ≡ take n slice
  unfolding head
  head-eq-take slice n = ground (arith, take-past slice n)

  -- The clamped suffix is `drop`, whatever the index.
  pub tail_from-eq-drop : (slice : List A) (n : ℕ) → tail_from slice n ≡ drop n slice
  unfolding tail_from
  tail_from-eq-drop slice n = ground (arith, drop_of_length-le n slice)

-- ===== src/Prelude/Counting.antt =====
-- How many items of a list pass a test. Two lists on which every test counts alike hold the same
-- items, each as often: this is how the library says that one order rearranges another.
use Prim.Native.Nat.{zero, suc, ◌<◌, ℕ, ◌+◌, ◌≤◌}
use mathlib.Core.Path.{◌≡◌, refl, sym, ◌∙◌, ap}
use mathlib.Core.Bool.{Bool, true, false, ◌&&◌, not}
use mathlib.Core.List.{List, [], ◌∷◌, ◌++◌}
use mathlib.Core.Logic.{inl, inr}
use mathlib.Core.Option.{some}
use native.Mathlib.Omega.{arith}
use nice_audio_player.Prelude.Tests.{Bool-cases, if◌then◌else◌}
use nice_audio_player.Prelude.Lists.{get_elem?, length}

module _ {ℓ} {A : Type ℓ} where
  abbrev pub count_if : (A → Bool) → List A → ℕ
  count_if p [] = 0
  count_if p (x ∷ xs) = (if p x then 1 else 0) + count_if p xs

  abbrev pub SameItems : List A → List A → Type ℓ
  SameItems xs ys = (p : A → Bool) → count_if p xs ≡ count_if p ys

  pub count_if-append :
      (p : A → Bool) (xs ys : List A) → count_if p (xs ++ ys) ≡ count_if p xs + count_if p ys
  count_if-append p [] ys = omega arith
  count_if-append p (x ∷ xs) ys = ground (arith, count_if-append p xs ys)

  pub count_if-all : (xs : List A) → count_if (λ _. true) xs ≡ length xs
  count_if-all [] = refl
  count_if-all (x ∷ xs) = omega (arith, count_if-all xs)

  pub SameItems-length : (xs ys : List A) → SameItems xs ys → length xs ≡ length ys
  SameItems-length xs ys h = sym (count_if-all xs) ∙ h (λ _. true) ∙ count_if-all ys

  abbrev pub All {κ} : (A → Type κ) → List A → Type κ
  All P [] = Unit
  All P (x ∷ xs) = P x × All P xs

  pub count_if-All_kept :
      (p : A → Bool) (xs : List A)
      → (keep : A → Bool) → All (λ x. keep x ≡ true) xs
      → count_if (λ x. keep x && p x) xs ≡ count_if p xs
  count_if-All_kept p [] keep h = refl
  count_if-All_kept p (x ∷ xs) keep h =
      rw h.0 (ap (◌+◌ (if p x then 1 else 0)) (count_if-All_kept p xs keep h.1))

  pub count_if-All_dropped :
      (p : A → Bool) (xs : List A)
      → (keep : A → Bool) → All (λ x. keep x ≡ false) xs
      → count_if (λ x. keep x && p x) xs ≡ 0
  count_if-All_dropped p [] keep h = refl
  count_if-All_dropped p (x ∷ xs) keep h =
      rw h.0 (omega (arith, count_if-All_dropped p xs keep h.1))

  pub count_if-and-le :
      (p keep : A → Bool) (xs : List A) → count_if (λ x. keep x && p x) xs ≤ count_if p xs
  count_if-and-le p keep [] = omega arith
  count_if-and-le p keep (x ∷ xs) = ground (arith, count_if-and-le p keep xs)

  pub count_if-not :
      (keep : A → Bool) (xs : List A)
      → count_if keep xs + count_if (λ x. not (keep x)) xs ≡ length xs
  count_if-not keep [] = omega arith
  count_if-not keep (x ∷ xs) = ground (arith, count_if-not keep xs)

  pub count_if-le : (p : A → Bool) (xs : List A) → count_if p xs ≤ length xs
  count_if-le p [] = omega arith
  count_if-le p (x ∷ xs) = ground (arith, count_if-le p xs)

  pub count_if-pos :
      (p : A → Bool) (xs : List A) (i : ℕ) (x : A)
      → get_elem? xs i ≡ some x
      → p x ≡ true
      → 0 < count_if p xs
  count_if-pos p [] i x e t = cc
  count_if-pos p (y ∷ ys) zero x e t = ground arith
  count_if-pos p (y ∷ ys) (suc i) x e t = omega (arith, count_if-pos p ys i x e t)

  pub find_of_count :
      (p : A → Bool) (xs : List A)
      → 0 < count_if p xs
      → (i : ℕ) × (x : A) × (get_elem? xs i ≡ some x) × (p x ≡ true)
  find_of_count p [] h = absurd (omega arith)
  find_of_count p (x ∷ xs) h = elim (Bool-cases (p x)) [
    | inl hit ↦ (zero, x, refl, hit)
    | inr miss ↦ let (i, y, at, hit) = find_of_count p xs (ground arith) in (suc i, y, at, hit)
  ]

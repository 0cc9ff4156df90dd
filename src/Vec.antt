-- ===== src/Vec.antt =====
-- The operations of `Vec` that the backend edits its sequences with. `none` is a panic: an index
-- past the end.
pub mod Counts
pub mod Parts
use nice_audio_player.Prelude.{
  ℕ, zero, suc, ◌+◌, Option, none, some, Bool, true, false, ◌||◌, List, [], ◌∷◌, ◌++◌, leb,
  if◌then◌else◌, length, take, drop,
}

module _ {ℓ} {A : Type ℓ} where
  -- `vec.remove(index)`: the removed item, and what is left.
  unfoldable pub remove : List A → ℕ → Option (A × List A)
  remove [] index = none
  remove (x ∷ xs) zero = some (x, xs)
  remove (x ∷ xs) (suc index) = elim (remove xs index) [
    | none ↦ none
    | some (y, rest) ↦ some (y, x ∷ rest)
  ]

  -- `vec.splice(at..at, items)`, which inserts.
  unfoldable pub splice : List A → ℕ → List A → Option (List A)
  splice xs at items =
      if leb at (length xs) then some (take at xs ++ (items ++ drop at xs)) else none

  -- `vec.insert(at, item)`.
  unfoldable pub insert : List A → ℕ → A → Option (List A)
  unfolding splice
  insert xs at item = splice xs at (item ∷ [])

  -- `vec.retain(keep)`.
  unfoldable pub retain : (A → Bool) → List A → List A
  retain keep [] = []
  retain keep (x ∷ xs) = let rest = retain keep xs in if keep x then x ∷ rest else rest

  -- `iter().position(test)`.
  unfoldable pub position : (A → Bool) → List A → Option ℕ
  position test [] = none
  position test (x ∷ xs) =
      let later : Option ℕ = elim (position test xs) [ none ↦ none | some i ↦ some (suc i) ] in
      if test x then some zero else later

  -- `iter().any(test)`.
  unfoldable pub any : (A → Bool) → List A → Bool
  any test [] = false
  any test (x ∷ xs) = test x || any test xs

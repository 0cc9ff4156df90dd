-- ===== src/BTree.antt =====
-- `BTreeMap`, as the list of its entries in the order of their keys, and `BTreeSet` over an order
-- that is a parameter (std::collections, as the backend uses them).
pub mod Laws
use nice_audio_player.Prelude.{
  ◌≡◌, ◌∷◌, ◌==◌, ℕ, some, none, ltb, is_some, if◌then◌else◌, false, [], Option, List, Bool,
}

module _ {ℓ} {V : Type ℓ} where
  unfoldable pub get : ℕ → List (ℕ × V) → Option V
  get k [] = none
  get k ((j, w) ∷ m) = if j == k then some w else get k m

  unfoldable pub insert : ℕ → V → List (ℕ × V) → List (ℕ × V)
  insert k v [] = (k, v) ∷ []
  insert k v ((j, w) ∷ m) =
      let rest = insert k v m in
      if ltb k j then (k, v) ∷ ((j, w) ∷ m) else if ltb j k then (j, w) ∷ rest else (k, v) ∷ m

  unfoldable pub remove : ℕ → List (ℕ × V) → List (ℕ × V)
  remove k [] = []
  remove k ((j, w) ∷ m) = let rest = remove k m in if j == k then rest else (j, w) ∷ rest

  abbrev pub contains_key : ℕ → List (ℕ × V) → Bool
  contains_key k m = is_some (get k m)

-- A type of keys with the `<` of its `Ord`.
pub record Keys : Type 1 where
  pub Key : Type 0
  pub lt : Key → Key → Bool
  pub equal_of_neither : (a b : Key) → lt a b ≡ false → lt b a ≡ false → a ≡ b

module _ (keys : Keys) where
  open keys use {Key, lt}

  unfoldable pub set_insert : Key → List Key → List Key
  set_insert k [] = k ∷ []
  set_insert k (j ∷ s) =
      let rest = set_insert k s in
      if lt k j then k ∷ (j ∷ s) else if lt j k then j ∷ rest else j ∷ s

  unfoldable pub extend : List Key → List Key → List Key
  unfolding set_insert
  extend s [] = s
  extend s (k ∷ ks) = extend (set_insert k s) ks

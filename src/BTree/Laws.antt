-- ===== src/BTree/Laws.antt =====
-- Lookups after `insert` and `remove`.
use nice_audio_player.Prelude.{◌≢◌, ◌≡◌, ◌∷◌, ℕ, some, refl, none, arith, [], List}
use nice_audio_player.BTree

module _ {ℓ} {V : Type ℓ} where
  pub get-insert : (k : ℕ) (v : V) (m : List (ℕ × V)) → BTree.get k (BTree.insert k v m) ≡ some v
  unfolding BTree.get BTree.insert
  get-insert k v [] = ground arith
  get-insert k v ((j, w) ∷ m) = ground (arith, get-insert k v m)

  pub get-insert_other :
      (i k : ℕ) (v : V) (m : List (ℕ × V))
      → i ≢ k
      → BTree.get i (BTree.insert k v m) ≡ BTree.get i m
  unfolding BTree.get BTree.insert
  get-insert_other i k v [] h = ground arith
  get-insert_other i k v ((j, w) ∷ m) h = ground (arith, get-insert_other i k v m h)

  pub get-remove : (k : ℕ) (m : List (ℕ × V)) → BTree.get k (BTree.remove k m) ≡ none
  unfolding BTree.get BTree.remove
  get-remove k [] = refl
  get-remove k ((j, w) ∷ m) = ground (arith, get-remove k m)

  pub get-remove_other :
      (i k : ℕ) (m : List (ℕ × V)) → i ≢ k → BTree.get i (BTree.remove k m) ≡ BTree.get i m
  unfolding BTree.get BTree.remove
  get-remove_other i k [] h = refl
  get-remove_other i k ((j, w) ∷ m) h = ground (arith, get-remove_other i k m h)

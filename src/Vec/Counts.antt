-- ===== src/Vec/Counts.antt =====
-- What the operations of `Vec` do to the number of items that pass a test, and to lengths.
use nice_audio_player.Prelude.{
  ℕ, zero, suc, ◌+◌, ◌<◌, ◌≡◌, refl, ap, inl, inr, Bool, true, false, ◌&&◌, none, some, List, [],
  ◌∷◌, ◌++◌, arith, one_add, zero_add, Bool-cases, count_if, count_if-append, length, get_elem?,
  take, drop,
}
use nice_audio_player.Vec.{remove, splice, retain, position, any}

module _ {ℓ} {A : Type ℓ} where
  pub count_if-take-drop :
      (p : A → Bool) (n : ℕ) (xs : List A)
      → count_if p (take n xs) + count_if p (drop n xs) ≡ count_if p xs
  count_if-take-drop p zero xs = omega arith
  count_if-take-drop p (suc n) [] = omega arith
  count_if-take-drop p (suc n) (x ∷ xs) = ground (arith, count_if-take-drop p n xs)

  pub remove-get :
      (xs : List A) (i : ℕ) (x : A)
      → get_elem? xs i ≡ some x
      → remove xs i ≡ some (x, take i xs ++ drop (suc i) xs)
  unfolding remove
  remove-get [] i x e = cc
  remove-get (y ∷ ys) zero x e = ground arith
  remove-get (y ∷ ys) (suc i) x e = rw (remove-get ys i x e, remove)

  pub count_if-get :
      (p : A → Bool) (xs : List A) (i : ℕ) (x : A)
      → get_elem? xs i ≡ some x
      → count_if p (take i xs) + count_if p (x ∷ drop (suc i) xs) ≡ count_if p xs
  count_if-get p [] i x e = cc
  count_if-get p (y ∷ ys) zero x e = ground arith
  count_if-get p (y ∷ ys) (suc i) x e = ground (arith, count_if-get p ys i x e)

  pub count_if-splice :
      (p : A → Bool) (xs : List A) (i : ℕ) (items ys : List A)
      → splice xs i items ≡ some ys
      → count_if p ys ≡ count_if p items + count_if p xs
  unfolding splice
  count_if-splice p xs i items ys e = ground (
    arith,
    count_if-append p (take i xs) (items ++ drop i xs),
    count_if-append p items (drop i xs),
    count_if-take-drop p i xs,
  )

  pub count_if-retain :
      (p keep : A → Bool) (xs : List A)
      → count_if p (retain keep xs) ≡ count_if (λ x. keep x && p x) xs
  unfolding retain
  count_if-retain p keep [] = refl
  count_if-retain p keep (x ∷ xs) = ground (arith, count_if-retain p keep xs)

  pub position-lt : (p : A → Bool) (xs : List A) (i : ℕ) → position p xs ≡ some i → i < length xs
  unfolding position
  position-lt p [] i e = cc
  position-lt p (x ∷ xs) zero e = omega arith
  position-lt p (x ∷ xs) (suc i) e = ground (arith, position-lt p xs i)

  pub position-get :
      (p : A → Bool) (xs : List A) (i : ℕ)
      → position p xs ≡ some i
      → (x : A) × (get_elem? xs i ≡ some x) × (p x ≡ true)
  unfolding position
  position-get p [] i e = cc
  position-get p (x ∷ xs) zero e = (x, refl, ground arith)
  position-get p (x ∷ xs) (suc i) e = position-get p xs i (ground arith)

  pub position-none : (p : A → Bool) (xs : List A) → position p xs ≡ none → count_if p xs ≡ 0
  unfolding position
  position-none p [] e = refl
  position-none p (x ∷ xs) e = ground (arith, position-none p xs)

  pub length-retain : (keep : A → Bool) (xs : List A) → length (retain keep xs) ≡ count_if keep xs
  unfolding retain
  length-retain keep [] = refl
  length-retain keep (x ∷ xs) = ground (arith, length-retain keep xs)

  pub retain-take :
      (keep : A → Bool) (n : ℕ) (xs : List A)
      → take (count_if keep (take n xs)) (retain keep xs) ≡ retain keep (take n xs)
  unfolding retain
  retain-take keep zero xs = refl
  retain-take keep (suc n) [] = refl
  retain-take keep (suc n) (x ∷ xs) = elim (Bool-cases (keep x)) [
    | inl kept ↦ rw (kept, one_add (count_if keep (take n xs))) (ap (◌∷◌ x) (retain-take keep n xs))
    | inr gone ↦ rw (gone, zero_add (count_if keep (take n xs))) (retain-take keep n xs)
  ]

  pub retain-drop :
      (keep : A → Bool) (n : ℕ) (xs : List A)
      → drop (count_if keep (take n xs)) (retain keep xs) ≡ retain keep (drop n xs)
  unfolding retain
  retain-drop keep zero xs = refl
  retain-drop keep (suc n) [] = refl
  retain-drop keep (suc n) (x ∷ xs) = elim (Bool-cases (keep x)) [
    | inl kept ↦ rw (kept, one_add (count_if keep (take n xs))) (retain-drop keep n xs)
    | inr gone ↦ rw (gone, zero_add (count_if keep (take n xs))) (retain-drop keep n xs)
  ]

  pub any-count : (p : A → Bool) (xs : List A) → any p xs ≡ false → count_if p xs ≡ 0
  unfolding any
  any-count p [] e = refl
  any-count p (x ∷ xs) e = ground (arith, any-count p xs)

  -- The items around a removed one count as the list without it.
  pub count_if-removed :
      (p : A → Bool) (xs : List A) (i : ℕ) (x : A)
      → get_elem? xs i ≡ some x
      → count_if p (x ∷ []) + count_if p (take i xs ++ drop (suc i) xs) ≡ count_if p xs
  count_if-removed p xs i x e =
      ground (arith, count_if-get p xs i x e, count_if-append p (take i xs) (drop (suc i) xs))

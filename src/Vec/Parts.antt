-- ===== src/Vec/Parts.antt =====
-- Parts of lists that `Vec`'s operations have changed.
use nice_audio_player.Prelude.{
  ◌+◌, zero_add, some, ◌≤◌, ◌≡◌, ◌∷◌, ◌∙◌, ◌<◌, ◌++◌, ℕ, zero, true, take, sym, suc, subst, refl,
  not, length-take, length, get_elem?, false, drop, count_if, arith, ap, [], List, Bool, All,
}
use nice_audio_player.Vec.{retain}
use nice_audio_player.Vec.Counts.{retain-take, retain-drop}

module _ {ℓ} {A : Type ℓ} where
  pub take-append : (n : ℕ) (xs ys : List A) → n ≤ length xs → take n (xs ++ ys) ≡ take n xs
  take-append zero xs ys h = refl
  take-append (suc n) [] ys h = absurd (omega arith)
  take-append (suc n) (x ∷ xs) ys h = ap (◌∷◌ x) (take-append n xs ys (omega arith))

  pub drop-append : (n : ℕ) (xs ys : List A) → n ≤ length xs → drop n (xs ++ ys) ≡ drop n xs ++ ys
  drop-append zero xs ys h = refl
  drop-append (suc n) [] ys h = absurd (omega arith)
  drop-append (suc n) (x ∷ xs) ys h = drop-append n xs ys (omega arith)

  pub take-take : (m n : ℕ) (xs : List A) → m ≤ n → take m (take n xs) ≡ take m xs
  take-take zero n xs h = refl
  take-take (suc m) zero xs h = absurd (omega arith)
  take-take (suc m) (suc n) [] h = refl
  take-take (suc m) (suc n) (x ∷ xs) h = ap (◌∷◌ x) (take-take m n xs (omega arith))

  pub drop-take_self : (n : ℕ) (xs : List A) → drop n (take n xs) ≡ []
  drop-take_self zero xs = refl
  drop-take_self (suc n) [] = refl
  drop-take_self (suc n) (x ∷ xs) = drop-take_self n xs

  -- Two lists with one prefix agree inside it.
  pub get_elem?-of_take :
      (i n : ℕ) (xs ys : List A) → i < n → take n xs ≡ take n ys → get_elem? xs i ≡ get_elem? ys i
  get_elem?-of_take i n xs ys h e =
      sym (get_elem?-take i n xs h) ∙ ap (λ zs. get_elem? zs i) e ∙ get_elem?-take i n ys h
    where
      get_elem?-take : (i n : ℕ) (xs : List A) → i < n → get_elem? (take n xs) i ≡ get_elem? xs i
      get_elem?-take i zero xs h = absurd (omega arith)
      get_elem?-take zero (suc n) [] h = refl
      get_elem?-take (suc i) (suc n) [] h = refl
      get_elem?-take zero (suc n) (x ∷ xs) h = refl
      get_elem?-take (suc i) (suc n) (x ∷ xs) h = get_elem?-take i n xs (omega arith)

  pub drop-get :
      (xs : List A) (i : ℕ) (x : A) → get_elem? xs i ≡ some x → drop i xs ≡ x ∷ drop (suc i) xs
  drop-get [] i x e = cc
  drop-get (y ∷ ys) zero x e = ground arith
  drop-get (y ∷ ys) (suc i) x e = drop-get ys i x e

  pub All-take {κ} : (P : A → Type κ) (n : ℕ) (xs : List A) → All P xs → All P (take n xs)
  All-take P zero xs h = tt
  All-take P (suc n) [] h = tt
  All-take P (suc n) (x ∷ xs) h = (h.0, All-take P n xs h.1)

  pub get_elem?-drop : (n i : ℕ) (xs : List A) → get_elem? (drop n xs) i ≡ get_elem? xs (n + i)
  get_elem?-drop zero i xs = rw (zero_add i)
  get_elem?-drop (suc n) i [] = refl
  get_elem?-drop (suc n) i (x ∷ xs) = ground (arith, get_elem?-drop n i xs)

  pub retain_same :
      (keep : A → Bool) (xs : List A) → All (λ x. keep x ≡ true) xs → retain keep xs ≡ xs
  unfolding retain
  retain_same keep [] h = refl
  retain_same keep (x ∷ xs) h = rw h.0 (ap (◌∷◌ x) (retain_same keep xs h.1))

  pub retain_none :
      (keep : A → Bool) (xs : List A) → All (λ x. keep x ≡ false) xs → retain keep xs ≡ []
  unfolding retain
  retain_none keep [] h = refl
  retain_none keep (x ∷ xs) h = rw h.0 (retain_none keep xs h.1)

  pub retain-append :
      (keep : A → Bool) (xs ys : List A) → retain keep (xs ++ ys) ≡ retain keep xs ++ retain keep ys
  unfolding retain
  retain-append keep [] ys = refl
  retain-append keep (x ∷ xs) ys = ground (arith, retain-append keep xs ys)

  pub count_of_All :
      (keep : A → Bool) (xs : List A) → All (λ x. keep x ≡ true) xs → count_if keep xs ≡ length xs
  count_of_All keep [] h = refl
  count_of_All keep (x ∷ xs) h = rw h.0 (omega (arith, count_of_All keep xs h.1))

  pub All-of_count :
      (p : A → Bool) (xs : List A) → count_if p xs ≡ 0 → All (λ x. not (p x) ≡ true) xs
  All-of_count p [] h = tt
  All-of_count p (x ∷ xs) h = (ground arith, All-of_count p xs (omega arith))

  -- Where a prefix is kept whole, `retain` works on what follows it.
  module _ (keep : A → Bool) (n : ℕ) (xs : List A) (h : All (λ x. keep x ≡ true) (take n xs))
      (fits : n ≤ length xs) where
    kept : count_if keep (take n xs) ≡ n
    kept = omega (arith, count_of_All keep (take n xs) h, length-take n xs)

    pub take-retain : take n (retain keep xs) ≡ take n xs
    take-retain =
        subst (λ m. take m (retain keep xs) ≡ retain keep (take n xs)) kept (retain-take keep n xs)
        ∙ retain_same keep (take n xs) h

    pub drop-retain : drop n (retain keep xs) ≡ retain keep (drop n xs)
    drop-retain =
        subst (λ m. drop m (retain keep xs) ≡ retain keep (drop n xs)) kept (retain-drop keep n xs)

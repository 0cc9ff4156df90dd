-- ===== src/Library/Relink/Candidates.antt =====
-- The Missing tracks that an arrived file may be paired with.
use nice_audio_player.Prelude.{
  ◌≡◌, ◌∷◌, ◌∙◌, ◌+◌, ℕ, unwrap_or, true, suc, subst, some, refl, inr, inl, if-cases, get_elem?,
  false, arith, [], Option-cases, List, Bool-cases, Bool, All,
}
use nice_audio_player.Library.Relink.{
  Identity, candidates, choose, only_one, by_tags, find, first_of,
}

-- What a candidate is: an unclaimed Missing track that passes the test, with its place.
abbrev pub Candidate : (Identity → Bool) → List Identity → List Bool → ℕ → ℕ × Identity → Type 0
Candidate test missing claimed base x =
    (i : ℕ) × (x.0 ≡ base + i)
    × (get_elem? missing i ≡ some x.1)
    × (get_elem? claimed i ≡ some false)
    × (test x.1 ≡ true)

All-weaken {ℓ} :
    {A : Type ℓ} {P Q : A → Type 0} (xs : List A) → ((x : A) → P x → Q x) → All P xs → All Q xs
All-weaken [] f h = tt
All-weaken (x ∷ xs) f (h, hs) = (f x h, All-weaken xs f hs)

behind :
    (test : Identity → Bool) (m : Identity) (ms : List Identity) (c : Bool) (cs : List Bool)
    (base : ℕ)
    → (x : ℕ × Identity) → Candidate test ms cs (base + 1) x
    → Candidate test (m ∷ ms) (c ∷ cs) base x
behind test m ms c cs base x (i, e, a, b, t) = (suc i, omega (arith, e), a, b, t)

pub candidates-Candidate :
    (test : Identity → Bool) (missing : List Identity) (claimed : List Bool) (base : ℕ)
    → All (Candidate test missing claimed base) (candidates test missing claimed base)
unfolding candidates
candidates-Candidate test [] cs base = tt
candidates-Candidate test (m ∷ ms) [] base = tt
candidates-Candidate test (m ∷ ms) (true ∷ cs) base =
    All-weaken _ (behind test m ms true cs base) (candidates-Candidate test ms cs (base + 1))
candidates-Candidate test (m ∷ ms) (false ∷ cs) base =
    let rest =
      All-weaken _ (behind test m ms false cs base) (candidates-Candidate test ms cs (base + 1)) in
    if-cases (All (Candidate test (m ∷ ms) (false ∷ cs) base)) (test m) _ _
      (λ t. ((0, omega arith, refl, refl, t), rest)) (λ _. rest)

module _ (P : ℕ × Identity → Type 0) where
  find-All :
      (test : ℕ × Identity → Bool) (xs : List (ℕ × Identity)) (x : ℕ × Identity)
      → All P xs
      → find test xs ≡ some x
      → P x
  find-All test [] x h e = cc
  find-All test (y ∷ ys) x h e = elim (Bool-cases (test y)) [
    | inl t ↦ subst (λ o. P (unwrap_or o y)) (rw t at e) h.0
    | inr f ↦ find-All test ys x h.1 (rw f at e)
  ]

  first_of-All :
      (xs : List (ℕ × Identity)) (x : ℕ × Identity) → All P xs → first_of xs ≡ some x → P x
  first_of-All [] x h e = cc
  first_of-All (y ∷ ys) x h e = subst (λ o. P (unwrap_or o y)) e h.0

  pub choose-All :
      (file : Identity) (xs : List (ℕ × Identity)) (x : ℕ × Identity)
      → All P xs
      → choose file xs ≡ some x
      → P x
  unfolding choose
  choose-All file xs x h e = elim (Option-cases (find (λ y. by_tags file y.1) xs)) [
    | inl f ↦ first_of-All xs x h (rw f at e)
    | inr (y, f) ↦ find-All (λ z. by_tags file z.1) xs x h (f ∙ rw f at e)
  ]

  pub only_one-All :
      (xs : List (ℕ × Identity)) (x : ℕ × Identity) → All P xs → only_one xs ≡ some x → P x
  unfolding only_one
  only_one-All [] x h e = cc
  only_one-All (y ∷ []) x h e = subst (λ o. P (unwrap_or o y)) e h.0
  only_one-All (y ∷ z ∷ ys) x h e = cc

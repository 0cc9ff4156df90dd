-- ===== src/Library/Relink/Claims.antt =====
-- How often a track and a file are paired
-- (backend/src/library/scanner/relink.rs).
use nice_audio_player.Prelude.{
  ◌≤◌, ◌≡◌, ◌∷◌, ◌∙◌, ◌+◌, ◌++◌, ℕ, zero_add, zero, true, suc, some, refl, map, inr, inl,
  if◌then◌else◌, get_elem?, false, count_if, arith, [], Option-cases, List, Bool,
}
use nice_audio_player.Library.Relink.{
  Identity, Pairs, candidates, choose, claim, only_one, match_content, match_tags, pair_moves,
  unclaimed, by_content, by_tags,
}
use nice_audio_player.Library.Relink.Candidates.{
  Candidate, candidates-Candidate, choose-All, only_one-All,
}

module _ (p : Identity → Bool) where
  -- How many claimed Missing tracks pass `p`.
  used : List Identity → List Bool → ℕ
  used (m ∷ ms) (true ∷ cs) = (if p m then 1 else 0) + used ms cs
  used (m ∷ ms) (false ∷ cs) = used ms cs
  used _ _ = 0

  used-unclaimed : (missing : List Identity) → used missing (unclaimed missing) ≡ 0
  unfolding used
  used-unclaimed [] = refl
  used-unclaimed (m ∷ ms) = used-unclaimed ms

  used-le :
      (missing : List Identity) (claimed : List Bool) → used missing claimed ≤ count_if p missing
  unfolding used
  used-le [] cs = omega arith
  used-le (m ∷ ms) [] = omega arith
  used-le (m ∷ ms) (true ∷ cs) = omega (arith, used-le ms cs)
  used-le (m ∷ ms) (false ∷ cs) = omega (arith, used-le ms cs)

  used-claim :
      (missing : List Identity) (claimed : List Bool) (i : ℕ) (m : Identity)
      → get_elem? missing i ≡ some m
      → get_elem? claimed i ≡ some false
      → used missing (claim claimed i) ≡ (if p m then 1 else 0) + used missing claimed
  unfolding used claim
  used-claim [] cs i m e f = cc
  used-claim (n ∷ ms) [] i m e f = cc
  used-claim (n ∷ ms) (true ∷ cs) zero m e f = cc
  used-claim (n ∷ ms) (false ∷ cs) zero m e f = ground arith
  used-claim (n ∷ ms) (true ∷ cs) (suc i) m e f = omega (arith, used-claim ms cs i m e f)
  used-claim (n ∷ ms) (false ∷ cs) (suc i) m e f = omega (arith, used-claim ms cs i m e f)

  claim-Candidate :
      (test : Identity → Bool) (missing : List Identity) (claimed : List Bool) (at : ℕ)
      (m : Identity)
      → Candidate test missing claimed 0 (at, m)
      → used missing (claim claimed at) ≡ (if p m then 1 else 0) + used missing claimed
  claim-Candidate test missing claimed at m (i, e, a, b, t) =
      rw (e ∙ zero_add i) (used-claim missing claimed i m a b)

  match_content-used :
      (missing : List Identity) (claimed : List Bool) (files : List Identity)
      → (let o = match_content missing claimed files in
          (used missing o.2 ≡ used missing claimed + count_if p (map (λ x. x.1) o.0))
          × (count_if p (map (λ x. x.0) o.0) + count_if p o.1 ≡ count_if p files))
  unfolding match_content
  match_content-used missing claimed [] = (omega arith, refl)
  match_content-used missing claimed (file ∷ files) =
      elim (Option-cases (choose file (candidates (by_content file) missing claimed 0))) [
        | inl e ↦
            let (a, b) = match_content-used missing claimed files in
            rw (e, match_content) (a, omega (arith, b))
        | inr ((at, m), e) ↦
            let (a, b) = match_content-used missing (claim claimed at) files in
            let c = claim-Candidate (by_content file) missing claimed at m (
              choose-All _ file _ (at, m) (candidates-Candidate (by_content file) missing claimed 0)
                e) in
            rw (e, match_content) (omega (arith, a, c), omega (arith, b))
      ]

  match_tags-used :
      (missing : List Identity) (claimed : List Bool) (files : List Identity)
      → (let pairs = match_tags missing claimed files in
          (used missing claimed + count_if p (map (λ x. x.1) pairs) ≤ count_if p missing)
          × (count_if p (map (λ x. x.0) pairs) ≤ count_if p files))
  unfolding match_tags
  match_tags-used missing claimed [] = (omega (arith, used-le missing claimed), omega arith)
  match_tags-used missing claimed (file ∷ files) =
      elim (Option-cases (only_one (candidates (by_tags file) missing claimed 0))) [
        | inl e ↦
            let (a, b) = match_tags-used missing claimed files in
            rw (e, match_tags) (a, omega (arith, b))
        | inr ((at, m), e) ↦
            let (a, b) = match_tags-used missing (claim claimed at) files in
            let c = claim-Candidate (by_tags file) missing claimed at m (
              only_one-All _ _ (at, m) (candidates-Candidate (by_tags file) missing claimed 0) e) in
            rw (e, match_tags) (omega (arith, a, c), omega (arith, b))
      ]

  -- No Missing track and no arrived file is in two pairs: whatever is counted, the pairs hold no
  -- more of it than the Missing tracks do, and no more than the arrived files do.
  pub pair_moves-once :
      (arrived missing : List Identity)
      → (count_if p (map (λ x. x.1) (pair_moves arrived missing)) ≤ count_if p missing)
        × (count_if p (map (λ x. x.0) (pair_moves arrived missing)) ≤ count_if p arrived)
  unfolding pair_moves
  pair_moves-once arrived missing =
      let o = match_content missing (unclaimed missing) arrived in
      let (a, b) = match_content-used missing (unclaimed missing) arrived in
      let (c, d) = match_tags-used missing o.2 o.1 in
      (
        omega (
          arith,
          a,
          c,
          used-unclaimed missing,
          count_if-map_append (λ x. x.1) o.0 (match_tags missing o.2 o.1),
        ),
        omega (arith, b, d, count_if-map_append (λ x. x.0) o.0 (match_tags missing o.2 o.1)),
      )
    where
      count_if-map_append :
          (f : Identity × Identity → Identity) (xs ys : Pairs)
          → count_if p (map f (xs ++ ys)) ≡ count_if p (map f xs) + count_if p (map f ys)
      count_if-map_append f [] ys = omega arith
      count_if-map_append f (x ∷ xs) ys = omega (arith, count_if-map_append f xs ys)

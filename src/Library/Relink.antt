-- ===== src/Library/Relink.antt =====
-- Finding moved files again (`pair_moves` of backend/src/library/scanner/relink.rs). A string is the
-- list of its code points; row ids, lengths, track numbers and durations are not negative. A slice of
-- flags stands beside the Missing tracks, as in the source.
pub mod Candidates
pub mod Claims
pub mod Matches
use nice_audio_player.Prelude.{
  ◌∷◌, ◌==◌, ◌+◌, ◌++◌, ◌&&◌, ℕ, zero, true, suc, some, not, none, map, is_some, if◌then◌else◌,
  false, [], Option, List, Bool,
}

pub record Fingerprint : Type 0 where
  pub title : List ℕ
  pub artist : List ℕ
  pub album : List ℕ
  pub track_number : Option ℕ
  pub duration_ms : ℕ

pub record Identity : Type 0 where
  pub file_id : ℕ
  pub track_id : ℕ
  pub byte_length : ℕ
  pub content_hash : Option (List ℕ)
  pub fingerprint : Option Fingerprint

-- `==` on strings, on options and on fingerprints.
abbrev pub same_text : List ℕ → List ℕ → Bool
same_text [] [] = true
same_text (a ∷ rest) (b ∷ more) = a == b && same_text rest more
same_text _ _ = false

abbrev pub same_option {ℓ} : {A : Type ℓ} → (A → A → Bool) → Option A → Option A → Bool
same_option same none none = true
same_option same (some a) (some b) = same a b
same_option same _ _ = false

abbrev pub same_fingerprint : Fingerprint → Fingerprint → Bool
same_fingerprint a b =
    same_text a.title b.title
    && (same_text a.artist b.artist
        && (same_text a.album b.album
            && (same_option (λ x y. x == y) a.track_number b.track_number
                && a.duration_ms == b.duration_ms)))

unfoldable pub by_content : Identity → Identity → Bool
by_content file candidate =
    is_some file.content_hash
    && (candidate.byte_length == file.byte_length
        && same_option same_text candidate.content_hash file.content_hash)

unfoldable pub by_tags : Identity → Identity → Bool
by_tags file candidate =
    is_some file.fingerprint && same_option same_fingerprint candidate.fingerprint file.fingerprint

-- `missing.iter().zip(&claimed).enumerate().filter(…)`, counted from `at`.
unfoldable pub candidates : (Identity → Bool) → List Identity → List Bool → ℕ → List (ℕ × Identity)
candidates test (m ∷ ms) (c ∷ cs) at =
    let rest = candidates test ms cs (at + 1) in if not c && test m then (at, m) ∷ rest else rest
candidates test _ _ at = []

abbrev pub find {ℓ} : {A : Type ℓ} → (A → Bool) → List A → Option A
find test [] = none
find test (x ∷ xs) = let rest = find test xs in if test x then some x else rest

abbrev pub first_of {ℓ} : {A : Type ℓ} → List A → Option A
first_of [] = none
first_of (x ∷ xs) = some x

abbrev pub or_else {ℓ} : {A : Type ℓ} → Option A → Option A → Option A
or_else none b = b
or_else (some a) b = some a

-- The candidate that an arrived file takes: one with the same tags, or else the first.
unfoldable pub choose : Identity → List (ℕ × Identity) → Option (ℕ × Identity)
unfolding by_tags
choose file found = or_else (find (λ x. by_tags file x.1) found) (first_of found)

-- `if let Some(slot) = claimed.get_mut(at) { *slot = true; }`
unfoldable pub claim : List Bool → ℕ → List Bool
claim [] at = []
claim (c ∷ cs) zero = true ∷ cs
claim (c ∷ cs) (suc at) = c ∷ claim cs at

-- `(same.next(), same.next())` as `(Some, None)`.
unfoldable pub only_one : List (ℕ × Identity) → Option (ℕ × Identity)
only_one (x ∷ []) = some x
only_one _ = none

abbrev pub Pairs : Type 0
Pairs = List (Identity × Identity)

-- The first loop: the pairs, the files that it leaves unmatched, and what is claimed.
unfoldable pub match_content :
    List Identity → List Bool → List Identity → Pairs × List Identity × List Bool
unfolding choose candidates claim by_content
match_content missing claimed [] = ([], [], claimed)
match_content missing claimed (file ∷ files) =
    elim (choose file (candidates (by_content file) missing claimed 0)) [
      | none ↦
          let (pairs, unmatched, after) = match_content missing claimed files in
          (pairs, file ∷ unmatched, after)
      | some (at, candidate) ↦
          let (pairs, unmatched, after) = match_content missing (claim claimed at) files in
          ((file, candidate) ∷ pairs, unmatched, after)
    ]

-- The second loop, over what the first leaves unmatched.
unfoldable pub match_tags : List Identity → List Bool → List Identity → Pairs
unfolding candidates claim by_tags only_one
match_tags missing claimed [] = []
match_tags missing claimed (file ∷ files) =
    elim (only_one (candidates (by_tags file) missing claimed 0)) [
      | none ↦ match_tags missing claimed files
      | some (at, candidate) ↦ (file, candidate) ∷ match_tags missing (claim claimed at) files
    ]

-- `vec![false; missing.len()]`.
abbrev pub unclaimed : List Identity → List Bool
unclaimed = map λ m. false

unfoldable pub pair_moves : List Identity → List Identity → Pairs
unfolding match_content match_tags
pair_moves arrived missing =
    let (pairs, unmatched, claimed) = match_content missing (unclaimed missing) arrived in
    pairs ++ match_tags missing claimed unmatched

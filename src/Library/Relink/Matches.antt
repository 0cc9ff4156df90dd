-- ===== src/Library/Relink/Matches.antt =====
-- The pairs, against the tests for the same content and the same tags
-- (backend/src/library/scanner/relink.rs).
use nice_audio_player.Prelude.{
  ◌+◌, zero, suc, refl, false, arith, Bool-cases, ◌⊎◌, ◌≡◌, ◌∷◌, ◌++◌, ℕ, true, some, inr, inl,
  get_elem?, [], Option-cases, none, Option, is_some, ◌==◌, ◌&&◌, ==_iff, ap, List, Bool, All,
}
use nice_audio_player.Library.Relink.{
  Identity, Pairs, candidates, choose, claim, only_one, match_content, match_tags, pair_moves,
  unclaimed, by_content, by_tags, find, Fingerprint, same_text, same_option, same_fingerprint,
}
use nice_audio_player.Library.Relink.Candidates.{candidates-Candidate, choose-All, only_one-All}

both : (a b : Bool) → (a && b) ≡ true → (a ≡ true) × (b ≡ true)
both true b e = (refl, e)
both false b e = cc

-- Both files have the same size and the same content hash, which is known of both.
abbrev pub SameContent : Identity → Identity → Type 0
SameContent file candidate =
    (candidate.byte_length ≡ file.byte_length)
    × ((hash : List ℕ) × (file.content_hash ≡ some hash) × (candidate.content_hash ≡ some hash))

-- Both files have the same tags, which are known of both.
abbrev pub SameTags : Identity → Identity → Type 0
SameTags file candidate =
    (tags : Fingerprint) × (file.fingerprint ≡ some tags) × (candidate.fingerprint ≡ some tags)

abbrev pub Matches : Identity × Identity → Type 0
Matches x = SameContent x.0 x.1 ⊎ SameTags x.0 x.1

same_text-eq : (a b : List ℕ) → same_text a b ≡ true → a ≡ b
same_text-eq [] [] e = refl
same_text-eq (x ∷ a) (y ∷ b) e =
    let (same, rest) = both (x == y) (same_text a b) e in
    cc ((==_iff x y).0 same, same_text-eq a b rest)
same_text-eq [] (y ∷ b) e = cc
same_text-eq (x ∷ a) [] e = cc

-- Options that are the same, when the first is known, are known to hold the same value.
same_option-known :
    {A : Type 0} (same : A → A → Bool) (a b : Option A)
    → ((x y : A) → same x y ≡ true → x ≡ y)
    → is_some b ≡ true
    → same_option same a b ≡ true
    → (x : A) × (b ≡ some x) × (a ≡ some x)
same_option-known same (some a) (some b) sound known e = (b, refl, ap some (sound a b e))
same_option-known same none (some b) sound known e = cc
same_option-known same a none sound known e = cc

same_option-eq :
    {A : Type 0} (same : A → A → Bool) (a b : Option A)
    → ((x y : A) → same x y ≡ true → x ≡ y)
    → same_option same a b ≡ true
    → a ≡ b
same_option-eq same none none sound e = refl
same_option-eq same (some a) (some b) sound e = ap some (sound a b e)
same_option-eq same none (some b) sound e = cc
same_option-eq same (some a) none sound e = cc

same_fingerprint-eq : (a b : Fingerprint) → same_fingerprint a b ≡ true → a ≡ b
same_fingerprint-eq a b e =
    let (title, e₁) = both (same_text a.title b.title) _ e in
    let (artist, e₂) = both (same_text a.artist b.artist) _ e₁ in
    let (album, e₃) = both (same_text a.album b.album) _ e₂ in
    let (number, length) = both _ (a.duration_ms == b.duration_ms) e₃ in
    λ i. record {
      title = same_text-eq a.title b.title title i;
      artist = same_text-eq a.artist b.artist artist i;
      album = same_text-eq a.album b.album album i;
      track_number =
          same_option-eq (λ x y. x == y) a.track_number b.track_number (λ x y. (==_iff x y).0)
            number i;
      duration_ms = (==_iff a.duration_ms b.duration_ms).0 length i;
    }

by_content-SameContent :
    (file candidate : Identity) → by_content file candidate ≡ true → SameContent file candidate
unfolding by_content
by_content-SameContent file candidate e =
    let (known, e₁) = both (is_some file.content_hash) _ e in
    let (size, hash) = both (candidate.byte_length == file.byte_length) _ e₁ in
    (
      (==_iff candidate.byte_length file.byte_length).0 size,
      same_option-known same_text candidate.content_hash file.content_hash same_text-eq known hash,
    )

by_tags-SameTags :
    (file candidate : Identity) → by_tags file candidate ≡ true → SameTags file candidate
unfolding by_tags
by_tags-SameTags file candidate e =
    let (known, tags) = both (is_some file.fingerprint) _ e in
    same_option-known same_fingerprint candidate.fingerprint file.fingerprint same_fingerprint-eq
      known tags

All-append :
    (P : Identity × Identity → Type 0) (xs ys : Pairs) → All P xs → All P ys → All P (xs ++ ys)
All-append P [] ys h k = k
All-append P (x ∷ xs) ys (h, hs) k = (h, All-append P xs ys hs k)

match_content-Matches :
    (missing : List Identity) (claimed : List Bool) (files : List Identity)
    → All Matches (match_content missing claimed files).0
unfolding match_content
match_content-Matches missing claimed [] = tt
match_content-Matches missing claimed (file ∷ files) =
    elim (Option-cases (choose file (candidates (by_content file) missing claimed 0))) [
      | inl e ↦ rw (e, match_content) (match_content-Matches missing claimed files)
      | inr ((at, m), e) ↦
          let (_, _, _, _, t) =
            choose-All _ file _ (at, m) (candidates-Candidate (by_content file) missing claimed 0)
              e in
          rw (e, match_content)
            (
              inl (by_content-SameContent file m t),
              match_content-Matches missing (claim claimed at) files,
            )
    ]

match_tags-Matches :
    (missing : List Identity) (claimed : List Bool) (files : List Identity)
    → All Matches (match_tags missing claimed files)
unfolding match_tags
match_tags-Matches missing claimed [] = tt
match_tags-Matches missing claimed (file ∷ files) =
    elim (Option-cases (only_one (candidates (by_tags file) missing claimed 0))) [
      | inl e ↦ rw (e, match_tags) (match_tags-Matches missing claimed files)
      | inr ((at, m), e) ↦
          let (_, _, _, _, t) =
            only_one-All _ _ (at, m) (candidates-Candidate (by_tags file) missing claimed 0) e in
          rw (e, match_tags)
            (inr (by_tags-SameTags file m t), match_tags-Matches missing (claim claimed at) files)
    ]

-- The two files of every pair that is made have the same size and the same content hash, known of
-- both, or the same tags (title, artist, album, track number and duration), known of both.
pub pair_moves-Matches :
    (arrived missing : List Identity) → All Matches (pair_moves arrived missing)
unfolding pair_moves
pair_moves-Matches arrived missing =
    let o = match_content missing (unclaimed missing) arrived in
    All-append Matches o.0 (match_tags missing o.2 o.1)
      (match_content-Matches missing (unclaimed missing) arrived)
      (match_tags-Matches missing o.2 o.1)

candidates-some :
    (test : Identity → Bool) (missing : List Identity) (i base : ℕ) (m : Identity)
    → get_elem? missing i ≡ some m
    → test m ≡ true
    → (x : ℕ × Identity) × (xs : List (ℕ × Identity)) × (candidates test missing
          (unclaimed missing)
          base
        ≡ x ∷ xs)
unfolding candidates
candidates-some test [] i base m e t = cc
candidates-some test (n ∷ ms) i base m e t = elim (Bool-cases (test n)) [
  | inl yes_n ↦ ((base, n), candidates test ms (unclaimed ms) (base + 1), rw yes_n refl)
  | inr no_n ↦ later i e no_n (λ j f. candidates-some test ms j (base + 1) m f t)
]
  where
    later :
        (i : ℕ)
        → get_elem? (n ∷ ms) i ≡ some m
        → test n ≡ false
        → ((j : ℕ)
            → get_elem? ms j ≡ some m
            → (x : ℕ × Identity) × (xs : List (ℕ × Identity)) × (candidates test ms
                  (unclaimed ms)
                  (base + 1)
                ≡ x ∷ xs))
        → (x : ℕ × Identity) × (xs : List (ℕ × Identity)) × (candidates test
              (n ∷ ms)
              (unclaimed (n ∷ ms))
              base
            ≡ x ∷ xs)
    later zero e no_n f = absurd (ground (arith, e, t, no_n))
    later (suc j) e no_n f = let (x, xs, g) = f j e in (x, xs, rw no_n g)

choose-some :
    (file : Identity) (x : ℕ × Identity) (xs : List (ℕ × Identity))
    → (y : ℕ × Identity) × (choose file (x ∷ xs) ≡ some y)
unfolding choose
choose-some file x xs = elim (Option-cases (find (λ y. by_tags file y.1) (x ∷ xs))) [
  | inl e ↦ (x, rw e refl)
  | inr (y, e) ↦ (y, rw e refl)
]

-- A file whose content hash is that of a Missing track of its size, and which arrives before any
-- other, is paired by content, if not with that track then with another such.
pub pair_moves-first :
    (file : Identity) (files missing : List Identity) (i : ℕ) (m : Identity)
    → get_elem? missing i ≡ some m
    → by_content file m ≡ true
    → (c : Identity) × (rest : Pairs) × (pair_moves (file ∷ files) missing ≡ (file, c) ∷ rest)
      × (by_content file c ≡ true)
unfolding pair_moves match_content
pair_moves-first file files missing i m at same =
    let (x, xs, some_found) = candidates-some (by_content file) missing i 0 m at same in
    let ((place, c), chosen) = choose-some file x xs in
    let e : choose file (candidates (by_content file) missing (unclaimed missing) 0)
        ≡ some (place, c) =
      rw some_found chosen in
    let (_, _, _, _, t) =
      choose-All _ file _ (place, c)
        (candidates-Candidate (by_content file) missing (unclaimed missing) 0) e in
    let o = match_content missing (claim (unclaimed missing) place) files in
    (c, o.0 ++ match_tags missing o.2 o.1, rw (e, match_content) refl, t)

-- ===== src/Tests/Relink.antt =====
-- Two arrived files, and two Missing tracks of which one has the content of the first file.
use nice_audio_player.Prelude.{
  ◌≤◌, ◌≡◌, ◌∷◌, ◌==◌, ℕ, true, some, refl, map, count_if, [], List, All,
}
use nice_audio_player.Library.Relink.{Identity, Pairs, pair_moves, by_content}
use nice_audio_player.Library.Relink.Claims.{pair_moves-once}
use nice_audio_player.Library.Relink.Matches.{Matches, pair_moves-Matches, pair_moves-first}

abbrev track : ℕ → ℕ → Identity
track id size = record {
  file_id = id;
  track_id = id;
  byte_length = size;
  content_hash = some (7 ∷ (size ∷ []));
  fingerprint = some (record {
    title = id ∷ [];
    artist = 2 ∷ [];
    album = 3 ∷ [];
    track_number = some 4;
    duration_ms = 1000;
  });
}

abbrev arrived_files : List Identity
arrived_files = track 10 500 ∷ (track 2 900 ∷ [])

abbrev missing_tracks : List Identity
missing_tracks = track 1 500 ∷ (track 2 600 ∷ [])

-- The first is paired by content, the second by its tags.
both_paired :
    pair_moves arrived_files missing_tracks
    ≡ (track 10 500, track 1 500) ∷ ((track 2 900, track 2 600) ∷ [])
unfolding pair_moves
both_paired = refl

pair_moves-once_example :
    (count_if (λ m. m.track_id == 1) (map (λ x. x.1) (pair_moves arrived_files missing_tracks)) ≤ 1)
    × (count_if (λ m. m.track_id == 1) (map (λ x. x.0) (pair_moves arrived_files missing_tracks))
        ≤ 0)
pair_moves-once_example = pair_moves-once (λ m. m.track_id == 1) arrived_files missing_tracks

pair_moves-Matches_example : All Matches (pair_moves arrived_files missing_tracks)
pair_moves-Matches_example = pair_moves-Matches arrived_files missing_tracks

pair_moves-first_example :
    (c : Identity) × (rest : Pairs) × (pair_moves arrived_files missing_tracks
      ≡ (track 10 500, c) ∷ rest)
    × (by_content (track 10 500) c ≡ true)
unfolding by_content
pair_moves-first_example =
    pair_moves-first (track 10 500) (track 2 900 ∷ []) missing_tracks 0 (track 1 500) refl refl

-- ===== src/Library/Sync/Gone.antt =====
-- Taking a folder out of the Library
-- (backend/src/library/sync/step.rs).
use nice_audio_player.Prelude.{
  ◌≡◌, ◌∷◌, ◌∙◌, ◌||◌, ◌==◌, ◌⊎◌, ◌+◌, ◌++◌, if◌then◌else◌, map, ℕ, true, some, refl, none, inr,
  inl, if-cases, false, arith, [], List, Bool-cases, Bool, ==_iff,
}
use nice_audio_player.BTree.{Keys}
use nice_audio_player.BTree
use nice_audio_player.BTree.Laws.{get-insert_other, get-remove}
use nice_audio_player.Library.Sync.State.{
  started, registered, enabled, disabled, removed, gc_finished,
}
use nice_audio_player.Library.Sync.State.{
  State, Watch, Effect, failed, attaching, attached, Input, attach, detach, start_scan, cancel_scan,
  run_gc,
}
use nice_audio_player.Library.Sync.Step.{start_due, retry, advance, handle, step, release, Acts}
use nice_audio_player.Library.Sync.Ending.{
  Ending, start_due-Ending, busy, starts, collects, clears, waits, rests,
}

abbrev pub among : ℕ → List ℕ → Bool
among id [] = false
among id (j ∷ js) = id == j || among id js

retry-keeps_out :
    (id : ℕ) (ws : List (ℕ × Watch)) (now : ℕ)
    → BTree.get id ws ≡ none
    → BTree.get id (retry ws now).0 ≡ none
unfolding retry BTree.get
retry-keeps_out id [] now e = refl
retry-keeps_out id ((j, attaching) ∷ ws) now e = ground (arith, retry-keeps_out id ws now)
retry-keeps_out id ((j, attached) ∷ ws) now e = ground (arith, retry-keeps_out id ws now)
retry-keeps_out id ((j, failed none) ∷ ws) now e = ground (arith, retry-keeps_out id ws now)
retry-keeps_out id ((j, failed (some at)) ∷ ws) now e = ground (arith, retry-keeps_out id ws now)

module _ (paths : Keys) (id : ℕ) where
  open paths use {Key}

  -- Nothing waits to be scanned in the folder, and no watcher is kept for it.
  pub record Gone (s : State paths) : Type 0 where
    pub nothing_waits : BTree.get id s.dirty ≡ none
    pub not_watched : BTree.get id s.watches ≡ none

  -- The input puts the folder in again, or has its artwork read again.
  abbrev pub names : Input paths → Bool
  names (started ids) = among id ids
  names (registered j) = id == j
  names (enabled j) = id == j
  names (gc_finished ids) = among id ids
  names _ = false

  Ending-Gone :
      (s : State paths) (now : ℕ) (o : Acts paths) → Ending paths s now o → Gone s → Gone o.0
  unfolding BTree.get
  Ending-Gone s now _ (busy p) h = h
  Ending-Gone s now _ (starts p d n) h = record {
    nothing_waits = refl;
    not_watched = h.not_watched;
  }
  Ending-Gone s now _ (collects p g n) h = record {
    nothing_waits = h.nothing_waits;
    not_watched = h.not_watched;
  }
  Ending-Gone s now _ (clears p g n) h = record {
    nothing_waits = h.nothing_waits;
    not_watched = h.not_watched;
  }
  Ending-Gone s now _ (waits due p d l) h = h
  Ending-Gone s now _ (rests p d g) h = h

  pub advance-Gone : (s : State paths) (now : ℕ) → Gone s → Gone (advance paths s now).0
  unfolding advance
  advance-Gone s now h =
      let s₁ : State paths = record s { watches = (retry s.watches now).0 } in
      Ending-Gone s₁ now _ (start_due-Ending paths s₁ now) (record {
        nothing_waits = h.nothing_waits;
        not_watched = retry-keeps_out id s.watches now h.not_watched;
      })

  release-Gone : (s : State paths) → Gone (release paths s id).0
  unfolding release
  release-Gone s =
      if-cases (λ (o : Acts paths). Gone o.0) (BTree.contains_key id s.watches) _ _ (λ _. out)
        (λ _. out)
    where
      out : Gone (record s { dirty = BTree.remove id s.dirty; watches = BTree.remove id s.watches })
      out = record { nothing_waits = get-remove id s.dirty; not_watched = get-remove id s.watches }

  -- How many of the effects drop the watcher of the folder.
  abbrev pub detaches : List (Effect paths) → ℕ
  detaches [] = 0
  detaches (detach j ∷ effects) = if id == j then detaches effects + 1 else detaches effects
  detaches (effect ∷ effects) = detaches effects

  detaches-append : (xs ys : List (Effect paths)) → detaches (xs ++ ys) ≡ detaches xs + detaches ys
  detaches-append [] ys = omega arith
  detaches-append (detach j ∷ xs) ys = ground (arith, detaches-append xs ys)
  detaches-append (attach j ∷ xs) ys = detaches-append xs ys
  detaches-append (start_scan ts ∷ xs) ys = detaches-append xs ys
  detaches-append (cancel_scan ∷ xs) ys = detaches-append xs ys
  detaches-append (run_gc ∷ xs) ys = detaches-append xs ys

  detaches-map_attach : (ids : List ℕ) → detaches (map attach ids) ≡ 0
  detaches-map_attach [] = refl
  detaches-map_attach (j ∷ ids) = detaches-map_attach ids

  Ending-detaches :
      (s : State paths) (now : ℕ) (o : Acts paths) → Ending paths s now o → detaches o.1 ≡ 0
  Ending-detaches s now _ (busy p) = refl
  Ending-detaches s now _ (starts p d n) = refl
  Ending-detaches s now _ (collects p g n) = refl
  Ending-detaches s now _ (clears p g n) = refl
  Ending-detaches s now _ (waits due p d l) = refl
  Ending-detaches s now _ (rests p d g) = refl

  advance-detaches : (s : State paths) (now : ℕ) → detaches (advance paths s now).1 ≡ 0
  unfolding advance
  advance-detaches s now =
      let (ws, ids) = retry s.watches now in
      let s₁ : State paths = record s { watches = ws } in
      let ended = Ending-detaches s₁ now _ (start_due-Ending paths s₁ now) in
      detaches-append (map attach ids) (start_due paths s₁ now).1
      ∙ omega (arith, detaches-map_attach ids, ended)

  -- The watcher that was kept is dropped once, and where none was kept nothing is dropped.
  abbrev pub Dropped : State paths → List (Effect paths) → Type 0
  Dropped s effects =
      ((BTree.contains_key id s.watches ≡ true) × (detaches effects ≡ 1))
      ⊎ ((BTree.contains_key id s.watches ≡ false) × (detaches effects ≡ 0))

  release-Dropped :
      (s s₁ : State paths) (now : ℕ)
      → Dropped s ((release paths s id).1 ++ (advance paths s₁ now).1)
  unfolding release
  release-Dropped s s₁ now =
      let quiet = advance-detaches s₁ now in
      elim (Bool-cases (BTree.contains_key id s.watches)) [
        | inl kept ↦ inl (kept, rw kept (ground (arith, quiet)))
        | inr free ↦ inr (free, rw free quiet)
      ]

  -- Disabling or removing a folder drops what waits in it and the record of its watcher. If the folder
  -- has a watcher, exactly one of the effects detaches it, and otherwise none does.
  pub disabled-Gone :
      (s : State paths) (now : ℕ)
      → (Gone (step paths s (disabled id) now).0 × Dropped s (step paths s (disabled id) now).1)
        × (Gone (step paths s (removed id) now).0 × Dropped s (step paths s (removed id) now).1)
  unfolding step handle
  disabled-Gone s now =
      let h = release-Gone s in
      let s₁ : State paths = record (release paths s id).0 { gc_pending = true } in
      (
        (advance-Gone _ now h, release-Dropped s (release paths s id).0 now),
        (
          advance-Gone s₁ now
              (record { nothing_waits = h.nothing_waits; not_watched = h.not_watched }),
          release-Dropped s s₁ now,
        ),
      )

  pub get-remove_absent :
      {V : Type 0} (j : ℕ) (m : List (ℕ × V))
      → BTree.get id m ≡ none
      → BTree.get id (BTree.remove j m) ≡ none
  unfolding BTree.get BTree.remove
  get-remove_absent j [] e = refl
  get-remove_absent j ((k, v) ∷ m) e = ground (arith, get-remove_absent j m)

  pub get-insert_absent :
      {V : Type 0} (j : ℕ) (v : V) (m : List (ℕ × V))
      → (id == j) ≡ false
      → BTree.get id m ≡ none
      → BTree.get id (BTree.insert j v m) ≡ none
  get-insert_absent j v m apart e =
      get-insert_other id j v m (λ same. ground (arith, same, apart)) ∙ e

  pub watched_apart :
      (s : State paths) (j : ℕ) → Gone s → BTree.contains_key j s.watches ≡ true → (id == j) ≡ false
  watched_apart s j h e = elim (Bool-cases (id == j)) [
    | inl same ↦ absurd (ground (arith, h.not_watched, e, (==_iff id j).0 same))
    | inr apart ↦ apart
  ]

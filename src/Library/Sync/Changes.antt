-- ===== src/Library/Sync/Changes.antt =====
-- What a change in a watched folder sets, and what the ticks after it do
-- (backend/src/library/sync/step.rs).
use nice_audio_player.Prelude.{
  ◌+◌, true, suc, refl, none, get_elem?, arith, ◌⊎◌, ◌≤◌, ◌≡◌, ◌∷◌, ◌==◌, ◌<◌, ◌++◌, ℕ, some, map,
  inr, inl, false, [], List, Bool-cases,
}
use nice_audio_player.BTree.{Keys}
use nice_audio_player.BTree
use native.Mathlib.Decide.{dec_lt}
use nice_audio_player.BTree.Laws.{get-insert}
use nice_audio_player.Library.Sync.State.{
  ScanTarget, everything, only_dirs, folder_changed, paths_changed, tick, start_scan, attach,
}
use nice_audio_player.Library.Sync.State.{State, Dirty, running, Effect, debounce_time}
use nice_audio_player.Library.Sync.Step.{
  retry, start_due, advance, handle, step, is_due, scanning, collect, is_nil, on_paths_changed,
  mark_everything, add_paths, target,
}

module _ (paths : Keys) where
  open paths use {Key}

  -- What waits in a folder has its target among those of a scan.
  target_of_get :
      (root : ℕ) (d : Dirty paths) (m : List (ℕ × Dirty paths))
      → BTree.get root m ≡ some d
      → (i : ℕ) × (get_elem? (map (target paths) m) i ≡ some (target paths (root, d)))
  unfolding BTree.get
  target_of_get root d [] e = cc
  target_of_get root d ((j, w) ∷ m) e = elim (Bool-cases (j == root)) [
    | inl same ↦ (0, ground (arith, same, rw same at e))
    | inr other ↦ let (i, at) = target_of_get root d m (rw other at e) in (suc i, at)
  ]

  not_nil_of_get :
      {V : Type 0} (k : ℕ) (v : V) (m : List (ℕ × V)) → BTree.get k m ≡ some v → is_nil m ≡ false
  unfolding BTree.get
  not_nil_of_get k v [] e = cc
  not_nil_of_get k v (x ∷ m) e = refl

  start_due-starts :
      (s : State paths) (now : ℕ)
      → scanning paths s ≡ false
      → is_due s.debounce now ≡ true
      → is_nil s.dirty ≡ false
      → start_due paths s now ≡ (
        record s { dirty = []; debounce = none; phase = running },
        start_scan (map (target paths) s.dirty) ∷ [],
      )
  unfolding start_due
  start_due-starts s now rest due work = rw (rest, due, work) refl

  start_due-waits :
      (s : State paths) (due now : ℕ)
      → s.debounce ≡ some due
      → now < due
      → start_due paths s now ≡ (s, [])
  unfolding start_due collect
  start_due-waits s due now e early = ground arith

  -- The target walks the whole folder `root` where all of it waits, and only the paths that wait
  -- otherwise.
  abbrev pub Asks : ℕ → Dirty paths → ScanTarget paths → Type 0
  Asks root everything t = (t.root ≡ root) × (t.dirs ≡ none)
  Asks root (only_dirs ds) t = (t.root ≡ root) × (t.dirs ≡ some ds)

  target-Asks : (root : ℕ) (d : Dirty paths) → Asks root d (target paths (root, d))
  target-Asks root everything = (refl, refl)
  target-Asks root (only_dirs ds) = (refl, refl)

  -- The last effect is a scan that has a target for what waits in the folder `root`.
  abbrev pub Scans : ℕ → Dirty paths → List (Effect paths) → Type 0
  Scans root d effects =
      (before : List (Effect paths)) × (targets : List (ScanTarget paths)) × (effects
        ≡ before ++ (start_scan targets ∷ []))
      × ((i : ℕ) × (t : ScanTarget paths) × (get_elem? targets i ≡ some t) × Asks root d t)

  -- What waits in the folder `root` goes on waiting for the instant `due`.
  abbrev pub DueAt : ℕ → ℕ → Dirty paths → State paths → Type 0
  DueAt due root d s =
      (scanning paths s ≡ false) × (s.debounce ≡ some due) × (BTree.get root s.dirty ≡ some d)

  -- The next tick at or after the instant that is set starts a scan, which has a target for the
  -- folder that waits: one that walks all of it where all of it waits, and otherwise one of exactly
  -- the paths that wait. A tick before that instant leaves the folder waiting.
  pub tick-exact :
      (s : State paths) (root due now : ℕ) (d : Dirty paths)
      → DueAt due root d s
      → ((due ≤ now) × Scans root d (step paths s tick now).1)
        ⊎ ((now < due) × DueAt due root d (step paths s tick now).0)
  unfolding step handle advance scanning
  tick-exact s root due now d (rest, e, at) = elim (dec_lt now due) [
    | yes early ↦ inr (early, rw (start_due-waits s₁ due now e early) (rest, e, at))
    | no late ↦ inl (
      omega arith,
      (
        map attach (retry s.watches now).1,
        map (target paths) s.dirty,
        rw (start_due-starts s₁ now rest (rw e (ground arith)) (not_nil_of_get root d s.dirty at))
            refl,
        (
          (target_of_get root d s.dirty at).0,
          target paths (root, d),
          (target_of_get root d s.dirty at).1,
          target-Asks root d,
        ),
      ),
    )
  ]
    where
      s₁ : State paths
      s₁ = record s { watches = (retry s.watches now).0 }

  -- A change in a watched folder, while no scan runs, makes all of the folder wait for the debounce
  -- time from then on, whatever waited before.
  pub folder_changed-DueAt :
      (s : State paths) (root now : ℕ)
      → scanning paths s ≡ false
      → BTree.contains_key root s.watches ≡ true
      → DueAt (now + debounce_time) root everything (step paths s (folder_changed root) now).0
  unfolding step handle advance scanning mark_everything
  folder_changed-DueAt s root now rest watched =
      rw
        (
          watched,
          start_due-waits
              (record (mark_everything paths s root) {
                debounce = some (now + debounce_time);
                watches = (retry s.watches now).0;
              })
              (now + debounce_time) now refl (omega arith),
        )
        (rest, refl, get-insert root everything s.dirty)

  -- The same of changes at some paths: they wait together with what waited before.
  pub paths_changed-DueAt :
      (s : State paths) (root now : ℕ) (ps : List Key)
      → scanning paths s ≡ false
      → BTree.contains_key root s.watches ≡ true
      → DueAt
          (now + debounce_time)
          root
          (add_paths paths (BTree.get root s.dirty) ps)
          (step paths s (paths_changed root ps) now).0
  unfolding step handle advance scanning on_paths_changed
  paths_changed-DueAt s root now ps rest watched =
      let d = add_paths paths (BTree.get root s.dirty) ps in
      rw
        (
          watched,
          start_due-waits
              (record s {
                dirty = BTree.insert root d s.dirty;
                debounce = some (now + debounce_time);
                watches = (retry s.watches now).0;
              })
              (now + debounce_time) now refl (omega arith),
        )
        (rest, refl, get-insert root d s.dirty)

-- ===== src/Library/Sync/Paths.antt =====
-- The paths of a folder that wait to be scanned.
use nice_audio_player.Prelude.{
  ◌⊎◌, ◌≤◌, ◌≡◌, ◌∷◌, ◌<◌, ◌+◌, ◌++◌, ℕ, zero, unwrap_or, true, sym, suc, subst, some, refl, none,
  inr, inl, get_elem?, false, ap, [], Option, List, Bool-cases,
}
use nice_audio_player.BTree.{Keys}
use nice_audio_player.BTree
use nice_audio_player.Library.Sync.State.{
  State, Dirty, Effect, ScanTarget, everything, only_dirs, paths_changed, tick, start_scan,
  debounce_time,
}
use nice_audio_player.Library.Sync.Step.{step, scanning, add_paths}
use nice_audio_player.Library.Sync.Changes.{Asks, DueAt, Scans, tick-exact, paths_changed-DueAt}

module _ (paths : Keys) where
  open paths use {Key, lt, equal_of_neither}

  abbrev pub Lists : Key → List Key → Type 0
  Lists p ps = (i : ℕ) × (get_elem? ps i ≡ some p)

  Lists-cons : (p q : Key) (ps : List Key) → Lists p ps → Lists p (q ∷ ps)
  Lists-cons p q ps (i, e) = (suc i, e)

  set_insert-new : (p : Key) (s : List Key) → Lists p (BTree.set_insert paths p s)
  unfolding BTree.set_insert
  set_insert-new p [] = (0, refl)
  set_insert-new p (q ∷ s) = elim (Bool-cases (lt p q)) [
    | inl less ↦ rw less (0, refl)
    | inr ge ↦ elim (Bool-cases (lt q p)) [
      | inl more ↦ rw (ge, more) (Lists-cons p q _ (set_insert-new p s))
      | inr le ↦ rw (ge, le) (0, ap some (sym (equal_of_neither p q ge le)))
    ]
  ]

  set_insert-old : (p q : Key) (s : List Key) → Lists p s → Lists p (BTree.set_insert paths q s)
  unfolding BTree.set_insert
  set_insert-old p q [] (i, e) = cc
  set_insert-old p q (x ∷ s) (zero, e) = elim (Bool-cases (lt q x)) [
    | inl less ↦ rw less (1, e)
    | inr ge ↦ elim (Bool-cases (lt x q)) [
      | inl more ↦ rw (ge, more) (0, e)
      | inr le ↦ rw (ge, le) (0, e)
    ]
  ]
  set_insert-old p q (x ∷ s) (suc i, e) = elim (Bool-cases (lt q x)) [
    | inl less ↦ rw less (suc (suc i), e)
    | inr ge ↦ elim (Bool-cases (lt x q)) [
      | inl more ↦ rw (ge, more) (Lists-cons p x _ (set_insert-old p q s (i, e)))
      | inr le ↦ rw (ge, le) (suc i, e)
    ]
  ]

  extend-old : (p : Key) (s ps : List Key) → Lists p s → Lists p (BTree.extend paths s ps)
  unfolding BTree.extend
  extend-old p s [] h = h
  extend-old p s (q ∷ ps) h = extend-old p (BTree.set_insert paths q s) ps (set_insert-old p q s h)

  extend-new : (p : Key) (s ps : List Key) → Lists p ps → Lists p (BTree.extend paths s ps)
  unfolding BTree.extend
  extend-new p s [] (i, e) = cc
  extend-new p s (q ∷ ps) (zero, e) =
      extend-old p (BTree.set_insert paths q s) ps
        (subst (λ o. Lists (unwrap_or o p) (BTree.set_insert paths q s)) e (set_insert-new q s))
  extend-new p s (q ∷ ps) (suc i, e) = extend-new p (BTree.set_insert paths q s) ps (i, e)

  -- What waits in a folder covers the path `p`.
  abbrev pub Covers : Key → Dirty paths → Type 0
  Covers p everything = Unit
  Covers p (only_dirs ds) = Lists p ds

  abbrev pub Covered : Key → Option (Dirty paths) → Type 0
  Covered p none = ⊥
  Covered p (some d) = Covers p d

  pub add_paths-Covers :
      (p : Key) (o : Option (Dirty paths)) (ps : List Key)
      → Covered p o ⊎ Lists p ps
      → Covers p (add_paths paths o ps)
  unfolding add_paths
  add_paths-Covers p none ps (inl h) = absurd h
  add_paths-Covers p none ps (inr h) = extend-new p [] ps h
  add_paths-Covers p (some everything) ps h = tt
  add_paths-Covers p (some (only_dirs ds)) ps (inl h) = extend-old p ds ps h
  add_paths-Covers p (some (only_dirs ds)) ps (inr h) = extend-new p ds ps h

  -- A scan with this target reads the path `p`: it walks the whole folder, or lists the path.
  abbrev pub Reads : Key → ScanTarget paths → Type 0
  Reads p t = (t.dirs ≡ none) ⊎ ((ds : List Key) × (t.dirs ≡ some ds) × Lists p ds)

  Asks-Reads :
      (root : ℕ) (p : Key) (d : Dirty paths) (t : ScanTarget paths)
      → Asks paths root d t
      → Covers p d
      → (t.root ≡ root) × Reads p t
  Asks-Reads root p everything t (at, whole) h = (at, inl whole)
  Asks-Reads root p (only_dirs ds) t (at, some_paths) h = (at, inr (ds, some_paths, h))

  -- The last effect is a scan of which a target of the folder `root` reads the path `p`.
  abbrev pub ScansPath : ℕ → Key → List (Effect paths) → Type 0
  ScansPath root p effects =
      (before : List (Effect paths)) × (targets : List (ScanTarget paths)) × (effects
        ≡ before ++ (start_scan targets ∷ []))
      × ((i : ℕ) × (t : ScanTarget paths) × (get_elem? targets i ≡ some t)
          × ((t.root ≡ root) × Reads p t))

  Scans-ScansPath :
      (root : ℕ) (p : Key) (d : Dirty paths) (effects : List (Effect paths))
      → Covers p d
      → Scans paths root d effects
      → ScansPath root p effects
  Scans-ScansPath root p d effects h (before, targets, e, (i, t, at, asks)) =
      (before, targets, e, (i, t, at, Asks-Reads root p d t asks h))

  -- Changes reported in a watched folder while no scan runs are scanned by a tick that comes at
  -- least the debounce time later, and by no earlier one: until then they wait. The scan has a
  -- target for the folder that walks all of it or lists each changed path, and each path that a
  -- wait in the folder covered already.
  pub paths_changed-scanned :
      (s : State paths) (root now later : ℕ) (ps : List Key) (p : Key)
      → scanning paths s ≡ false
      → BTree.contains_key root s.watches ≡ true
      → Covered p (BTree.get root s.dirty) ⊎ Lists p ps
      → (let s' = (step paths s (paths_changed root ps) now).0 in
          ((now + debounce_time ≤ later) × ScansPath root p (step paths s' tick later).1)
          ⊎ ((later < now + debounce_time)
              × ((d : Dirty paths) × Covers p d
                  × DueAt paths (now + debounce_time) root d (step paths s' tick later).0)))
  paths_changed-scanned s root now later ps p rest watched waiting =
      let d = add_paths paths (BTree.get root s.dirty) ps in
      let covers = add_paths-Covers p (BTree.get root s.dirty) ps waiting in
      let s' = (step paths s (paths_changed root ps) now).0 in
      elim (tick-exact paths s' root (now + debounce_time) later d
        (paths_changed-DueAt paths s root now ps rest watched)) [
          | inl (due, scans) ↦
              inl (due, Scans-ScansPath root p d (step paths s' tick later).1 covers scans)
          | inr (early, waits) ↦ inr (early, (d, covers, waits))
        ]

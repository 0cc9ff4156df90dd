-- ===== src/Library/Sync/Protocol.antt =====
-- The effects of the sync actor, against a monitor of the scanner that carries them out
-- (backend/src/library/sync/step.rs).
use nice_audio_player.Prelude.{
  ◌+◌, subst, ◌&&◌, sym, not, is_some, ap, ◌≡◌, ◌∷◌, ◌∙◌, ◌++◌, ℕ, true, some, refl, none, map, inr,
  inl, if-cases, false, arith, [], Option-cases, Option, List, Bool,
}
use nice_audio_player.BTree.{Keys}
use nice_audio_player.BTree
use nice_audio_player.Library.Sync.State.{
  startup_delay, started, registered, enabled, disabled, removed, missing_deleted, scan_requested,
  cancel_requested, folder_changed, paths_changed, watch_attached, attach_failed, scan_finished,
  gc_finished, tick, start_scan, cancel_scan, run_gc, attach, detach,
}
use nice_audio_player.Library.Sync.State.{
  State, Phase, idle, running, Input, Effect, ScanOutcome, completed, cancelled, failed_scan,
}
use nice_audio_player.Library.Sync.Step.{
  retry, advance, handle, step, scanning, is_nil, is_running, watch, watch_all, release,
  on_attached, on_scan_finished, mark_all, mark_everything, after_scan, Acts, is_failed,
}
use nice_audio_player.Library.Sync.Ending.{
  Ending, start_due-Ending, busy, starts, collects, clears, waits, rests,
}

module _ (paths : Keys) where
  -- The scanner, as the effects drive it: whether a scan runs after them, or `none` where an effect
  -- starts a second scan, cancels a scan that does not run, or collects artwork during one.
  pub follow : Bool → List (Effect paths) → Option Bool
  follow run [] = some run
  follow run (attach id ∷ es) = follow run es
  follow run (detach id ∷ es) = follow run es
  follow true (start_scan ts ∷ es) = none
  follow false (start_scan ts ∷ es) = follow true es
  follow true (cancel_scan ∷ es) = follow true es
  follow false (cancel_scan ∷ es) = none
  follow true (run_gc ∷ es) = none
  follow false (run_gc ∷ es) = follow false es

  -- The scanner when an input arrives, which may be its own report that it ended.
  abbrev pub heard : Bool → Input paths → Bool
  heard run (scan_finished outcome) = false
  heard run _ = run

  follow-append :
      (run now : Bool) (es fs : List (Effect paths))
      → follow run es ≡ some now
      → follow run (es ++ fs) ≡ follow now fs
  unfolding follow
  follow-append run now [] fs e = ground arith
  follow-append run now (attach id ∷ es) fs e = follow-append run now es fs e
  follow-append run now (detach id ∷ es) fs e = follow-append run now es fs e
  follow-append true now (start_scan ts ∷ es) fs e = cc
  follow-append false now (start_scan ts ∷ es) fs e = follow-append true now es fs e
  follow-append true now (cancel_scan ∷ es) fs e = follow-append true now es fs e
  follow-append false now (cancel_scan ∷ es) fs e = cc
  follow-append true now (run_gc ∷ es) fs e = cc
  follow-append false now (run_gc ∷ es) fs e = follow-append false now es fs e

  follow-attach : (run : Bool) (ids : List ℕ) → follow run (map attach ids) ≡ some run
  unfolding follow
  follow-attach run [] = refl
  follow-attach run (id ∷ ids) = follow-attach run ids

  -- Effects that lead the scanner from `run` to what the state they come with says.
  abbrev pub Agrees : Bool → Acts paths → Type 0
  Agrees run o = follow run o.1 ≡ some (scanning paths o.0)

  start_due-Agrees :
      (s : State paths) (now : ℕ) (o : Acts paths)
      → Ending paths s now o
      → Agrees (scanning paths s) o
  unfolding follow scanning
  start_due-Agrees s now _ (busy p) = refl
  start_due-Agrees s now _ (starts p d n) = rw p refl
  start_due-Agrees s now _ (collects p g n) = rw p refl
  start_due-Agrees s now _ (clears p g n) = refl
  start_due-Agrees s now _ (waits due p d l) = refl
  start_due-Agrees s now _ (rests p d g) = refl

  advance-Agrees : (s : State paths) (now : ℕ) → Agrees (scanning paths s) (advance paths s now)
  unfolding advance scanning
  advance-Agrees s now =
      let s₁ : State paths = record s { watches = (retry s.watches now).0 } in
      follow-append (scanning paths s) (scanning paths s) (map attach (retry s.watches now).1) _
        (follow-attach (scanning paths s) (retry s.watches now).1)
      ∙ start_due-Agrees s₁ now _ (start_due-Ending paths s₁ now)

  watch_all-Agrees :
      (s : State paths) (ids : List ℕ) → Agrees (scanning paths s) (watch_all paths s ids)
  unfolding watch_all watch follow scanning
  watch_all-Agrees s [] = refl
  watch_all-Agrees s (id ∷ ids) = watch_all-Agrees (watch paths s id).0 ids

  mark_all-phase : (s : State paths) (ids : List ℕ) → (mark_all paths s ids).phase ≡ s.phase
  unfolding mark_all mark_everything
  mark_all-phase s [] = refl
  mark_all-phase s (id ∷ ids) = mark_all-phase (mark_everything paths s id) ids

  release-Agrees : (s : State paths) (id : ℕ) → Agrees (scanning paths s) (release paths s id)
  unfolding release follow scanning
  release-Agrees s id =
      if-cases (Agrees (scanning paths s)) (BTree.contains_key id s.watches) _ _ (λ _. refl)
        (λ _. refl)

  on_attached-Agrees :
      (s : State paths) (id now : ℕ) → Agrees (scanning paths s) (on_attached paths s id now)
  unfolding on_attached follow scanning
  on_attached-Agrees s id now = elim (Option-cases (BTree.get id s.watches)) [
    | inl e ↦ rw (e, on_attached) refl
    | inr (w, e) ↦
        rw (e, on_attached)
          (if-cases (λ (t : State paths). some (scanning paths s) ≡ some (scanning paths t))
            (is_failed w) _ _ (λ _. refl) (λ _. refl))
  ]

  idle_after : (s : State paths) (outcome : ScanOutcome) → (after_scan paths s outcome).phase ≡ idle
  idle_after s completed = refl
  idle_after s cancelled = refl
  idle_after s failed_scan = refl

  idle_scanned :
      (s : State paths) (outcome : ScanOutcome) (now : ℕ)
      → (on_scan_finished paths s outcome now).phase ≡ idle
  unfolding on_scan_finished
  idle_scanned s outcome now =
      let s₁ = after_scan paths s outcome in
      if-cases (λ (t : State paths). t.phase ≡ idle)
        (not (is_nil s₁.dirty) && not (is_some s₁.debounce)) _ _ (λ _. idle_after s outcome)
        (λ _. idle_after s outcome)

  handle-Agrees :
      (s : State paths) (input : Input paths) (now : ℕ)
      → Agrees (heard (scanning paths s) input) (handle paths s input now)
  unfolding handle scanning follow mark_everything watch
  handle-Agrees s (started ids) now =
      let s₁ : State paths = record (mark_all paths (record s { gc_pending = true }) ids) {
        debounce = some (now + startup_delay);
      } in
      subst
        (λ p.
          follow (is_running p) (watch_all paths s₁ ids).1
          ≡ some (scanning paths (watch_all paths s₁ ids).0))
        (mark_all-phase (record s { gc_pending = true }) ids) (watch_all-Agrees s₁ ids)
  handle-Agrees s (registered id) now = refl
  handle-Agrees s (enabled id) now = refl
  handle-Agrees s (disabled id) now = release-Agrees s id
  handle-Agrees s (removed id) now = release-Agrees s id
  handle-Agrees s missing_deleted now = refl
  handle-Agrees s (scan_requested roots) now = if_running s.phase refl
    where
      if_running :
          (p : Phase)
          → s.phase ≡ p
          → Agrees (scanning paths s) (handle paths s (scan_requested roots) now)
      if_running running e = rw e refl
      if_running idle e = rw e refl
  handle-Agrees s cancel_requested now = if_running s.phase refl
    where
      if_running :
          (p : Phase)
          → s.phase ≡ p
          → Agrees (scanning paths s) (handle paths s cancel_requested now)
      if_running running e = rw e refl
      if_running idle e = rw e refl
  handle-Agrees s (folder_changed id) now =
      if-cases (Agrees (scanning paths s)) (BTree.contains_key id s.watches) _ _ (λ _. refl)
        (λ _. refl)
  handle-Agrees s (paths_changed root ps) now =
      if-cases (λ (t : State paths). some (scanning paths s) ≡ some (scanning paths t))
        (BTree.contains_key root s.watches) _ _ (λ _. refl) (λ _. refl)
  handle-Agrees s (watch_attached id) now = on_attached-Agrees s id now
  handle-Agrees s (attach_failed id) now =
      if-cases (Agrees (scanning paths s)) (BTree.contains_key id s.watches) _ _ (λ _. refl)
        (λ _. refl)
  handle-Agrees s (scan_finished outcome) now =
      ap (λ p. some (is_running p)) (sym (idle_scanned s outcome now))
  handle-Agrees s (gc_finished rescan) now =
      if-cases (Agrees (scanning paths s)) (is_nil rescan) _ _ (λ _. refl)
        (λ _. ap (λ p. some (is_running p)) (sym (mark_all-phase s rescan)))
  handle-Agrees s tick now = refl

  -- Whatever the input and whenever it comes, the effects of a step keep to the scanner's rules:
  -- no scan starts while one runs, none is cancelled while none runs, artwork is collected only
  -- while none runs; and the state knows whether one runs after them.
  pub step-Agrees :
      (s : State paths) (input : Input paths) (now : ℕ)
      → follow (heard (scanning paths s) input) (step paths s input now).1
        ≡ some (scanning paths (step paths s input now).0)
  unfolding step
  step-Agrees s input now =
      let h = handle paths s input now in
      follow-append (heard (scanning paths s) input) (scanning paths h.0) h.1 _
        (handle-Agrees s input now)
      ∙ advance-Agrees h.0 now

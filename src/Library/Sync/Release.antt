-- ===== src/Library/Sync/Release.antt =====
-- The inputs of the sync actor, and a folder that was taken out of the Library
-- (backend/src/library/sync/step.rs).
use nice_audio_player.Prelude.{
  ◌+◌, ◌&&◌, not, is_some, Option-cases, Option, ◌≡◌, ◌∷◌, ◌||◌, ◌==◌, ℕ, true, some, refl, inr,
  inl, if-cases, false, [], List, Bool,
}
use nice_audio_player.BTree.{Keys}
use nice_audio_player.BTree
use nice_audio_player.Library.Sync.State.{
  debounce_time, started, registered, enabled, disabled, removed, gc_finished,
}
use nice_audio_player.Library.Sync.State.{State, failed, attaching, attached, Input}
use nice_audio_player.Library.Sync.Step.{scanning, handle, step, release, Acts}
use nice_audio_player.Library.Sync.State.{
  everything, started, registered, enabled, disabled, removed, missing_deleted, scan_requested,
  cancel_requested, folder_changed, paths_changed, watch_attached, attach_failed, scan_finished,
  gc_finished, tick, startup_delay, watch_retry, completed, cancelled, failed_scan, ScanOutcome,
}
use nice_audio_player.Library.Sync.Step.{
  mark_all, mark_everything, watch, watch_all, release, on_attached, on_scan_finished,
  on_paths_changed, after_scan, is_failed, add_paths, is_nil,
}
use nice_audio_player.Library.Sync.State.{everything, attaching, attached, failed}
use nice_audio_player.Library.Sync.Gone.{
  among, Gone, names, get-insert_absent, get-remove_absent, watched_apart, advance-Gone,
}

module _ (paths : Keys) (id : ℕ) where
  open paths use {Key}

  or_false : (a b : Bool) → (a || b) ≡ false → (a ≡ false) × (b ≡ false)
  or_false true b e = cc
  or_false false b e = (refl, e)

  mark-Gone :
      (s : State paths) (j : ℕ)
      → (id == j) ≡ false
      → Gone paths id s
      → Gone paths id (mark_everything paths s j)
  unfolding mark_everything
  mark-Gone s j apart h = record {
    nothing_waits = get-insert_absent paths id j everything s.dirty apart h.nothing_waits;
    not_watched = h.not_watched;
  }

  mark_all-Gone :
      (s : State paths) (ids : List ℕ)
      → among id ids ≡ false
      → Gone paths id s
      → Gone paths id (mark_all paths s ids)
  unfolding mark_all
  mark_all-Gone s [] e h = h
  mark_all-Gone s (j ∷ ids) e h =
      let (apart, rest) = or_false (id == j) (among id ids) e in
      mark_all-Gone (mark_everything paths s j) ids rest (mark-Gone s j apart h)

  watch-Gone :
      (s : State paths) (j : ℕ)
      → (id == j) ≡ false
      → Gone paths id s
      → Gone paths id (watch paths s j).0
  unfolding watch
  watch-Gone s j apart h = record {
    nothing_waits = h.nothing_waits;
    not_watched = get-insert_absent paths id j attaching s.watches apart h.not_watched;
  }

  watch_all-Gone :
      (s : State paths) (ids : List ℕ)
      → among id ids ≡ false
      → Gone paths id s
      → Gone paths id (watch_all paths s ids).0
  unfolding watch_all
  watch_all-Gone s [] e h = h
  watch_all-Gone s (j ∷ ids) e h =
      let (apart, rest) = or_false (id == j) (among id ids) e in
      watch_all-Gone (watch paths s j).0 ids rest (watch-Gone s j apart h)

  -- The debounce instant and the pending collection do not matter.
  timed :
      (s : State paths) (due : Option ℕ) (gc : Bool)
      → Gone paths id s
      → Gone paths id (record s { debounce = due; gc_pending = gc })
  timed s due gc h = record { nothing_waits = h.nothing_waits; not_watched = h.not_watched }

  other_released-Gone :
      (s : State paths) (j : ℕ) → Gone paths id s → Gone paths id (release paths s j).0
  unfolding release
  other_released-Gone s j h =
      if-cases (λ (o : Acts paths). Gone paths id o.0) (BTree.contains_key j s.watches) _ _
        (λ _. out) (λ _. out)
    where
      out :
          Gone paths id
            (record s { dirty = BTree.remove j s.dirty; watches = BTree.remove j s.watches })
      out = record {
        nothing_waits = get-remove_absent paths id j s.dirty h.nothing_waits;
        not_watched = get-remove_absent paths id j s.watches h.not_watched;
      }

  on_attached-Gone :
      (s : State paths) (j now : ℕ) → Gone paths id s → Gone paths id (on_attached paths s j now).0
  unfolding on_attached
  on_attached-Gone s j now h = elim (Option-cases (BTree.get j s.watches)) [
    | inl e ↦ rw (e, on_attached) h
    | inr (w, e) ↦
        let apart = watched_apart paths id s j h (rw e refl) in
        rw (e, on_attached)
          (if-cases
            (λ (t : State paths).
              Gone paths id (record t { watches = BTree.insert j attached s.watches }))
            (is_failed w) _ _
            (λ _. record {
              nothing_waits = (mark-Gone s j apart h).nothing_waits;
              not_watched = get-insert_absent paths id j attached s.watches apart h.not_watched;
            })
            (λ _. record {
              nothing_waits = h.nothing_waits;
              not_watched = get-insert_absent paths id j attached s.watches apart h.not_watched;
            }))
  ]

  after_scan-Gone :
      (s : State paths) (outcome : ScanOutcome)
      → Gone paths id s
      → Gone paths id (after_scan paths s outcome)
  unfolding BTree.get
  after_scan-Gone s completed h = record {
    nothing_waits = h.nothing_waits;
    not_watched = h.not_watched;
  }
  after_scan-Gone s cancelled h = record { nothing_waits = refl; not_watched = h.not_watched }
  after_scan-Gone s failed_scan h = record {
    nothing_waits = h.nothing_waits;
    not_watched = h.not_watched;
  }

  on_scan_finished-Gone :
      (s : State paths) (outcome : ScanOutcome) (now : ℕ)
      → Gone paths id s
      → Gone paths id (on_scan_finished paths s outcome now)
  unfolding on_scan_finished
  on_scan_finished-Gone s outcome now h =
      let s₁ = after_scan paths s outcome in
      let g = after_scan-Gone s outcome h in
      if-cases (Gone paths id) (not (is_nil s₁.dirty) && not (is_some s₁.debounce)) _ _
        (λ _. timed s₁ (some now) s₁.gc_pending g) (λ _. g)

  handle-Gone :
      (s : State paths) (input : Input paths) (now : ℕ)
      → names paths id input ≡ false
      → Gone paths id s
      → Gone paths id (handle paths s input now).0
  unfolding handle on_paths_changed BTree.get
  handle-Gone s (started ids) now e h = watch_all-Gone _ ids e (
      timed (mark_all paths (record s { gc_pending = true }) ids) (some (now + startup_delay)) _
        (mark_all-Gone _ ids e (timed s s.debounce true h)))
  handle-Gone s (registered j) now e h =
      watch-Gone _ j e (timed (mark_everything paths s j) (some now) _ (mark-Gone s j e h))
  handle-Gone s (enabled j) now e h =
      watch-Gone _ j e (timed (mark_everything paths s j) (some now) _ (mark-Gone s j e h))
  handle-Gone s (disabled j) now e h = other_released-Gone s j h
  handle-Gone s (removed j) now e h = timed (release paths s j).0 _ true (other_released-Gone s j h)
  handle-Gone s missing_deleted now e h = timed s s.debounce true h
  handle-Gone s (scan_requested roots) now e h =
      if-cases (λ (o : Acts paths). Gone paths id o.0) (scanning paths s) _ _ (λ _. h)
        (λ _. record { nothing_waits = refl; not_watched = h.not_watched })
  handle-Gone s cancel_requested now e h = record {
    nothing_waits = refl;
    not_watched = h.not_watched;
  }
  handle-Gone s (folder_changed j) now e h =
      if-cases (λ (o : Acts paths). Gone paths id o.0) (BTree.contains_key j s.watches) _ _
        (λ w.
          timed (mark_everything paths s j) (some (now + debounce_time)) _
            (mark-Gone s j (watched_apart paths id s j h w) h))
        (λ _. h)
  handle-Gone s (paths_changed j ps) now e h =
      if-cases (Gone paths id) (BTree.contains_key j s.watches) _ _
        (λ w. record {
          nothing_waits =
              get-insert_absent paths id j (add_paths paths (BTree.get j s.dirty) ps) s.dirty
                (watched_apart paths id s j h w) h.nothing_waits;
          not_watched = h.not_watched;
        })
        (λ _. h)
  handle-Gone s (watch_attached j) now e h = on_attached-Gone s j now h
  handle-Gone s (attach_failed j) now e h =
      if-cases (λ (o : Acts paths). Gone paths id o.0) (BTree.contains_key j s.watches) _ _
        (λ w. record {
          nothing_waits = h.nothing_waits;
          not_watched =
              get-insert_absent paths id j (failed (some (now + watch_retry))) s.watches
                (watched_apart paths id s j h w) h.not_watched;
        })
        (λ _. h)
  handle-Gone s (scan_finished outcome) now e h = on_scan_finished-Gone s outcome now h
  handle-Gone s (gc_finished rescan) now e h =
      if-cases (λ (o : Acts paths). Gone paths id o.0) (is_nil rescan) _ _ (λ _. h)
        (λ _. timed (mark_all paths s rescan) (some now) _ (mark_all-Gone s rescan e h))
  handle-Gone s tick now e h = h

  -- A folder that was taken out stays out: no input but one that names it again, be it a late change
  -- or the late answer of its watcher, makes anything wait in it or keeps a watcher for it.
  pub step-Gone :
      (s : State paths) (input : Input paths) (now : ℕ)
      → names paths id input ≡ false
      → Gone paths id s
      → Gone paths id (step paths s input now).0
  unfolding step
  step-Gone s input now e h = advance-Gone paths id _ now (handle-Gone s input now e h)

-- ===== src/Library/Sync/Wakeups.antt =====
-- The instants that a step of the sync actor leaves set
-- (backend/src/library/sync/step.rs).
use nice_audio_player.Library.Sync.Ending.{rests, waits, clears, collects, starts, busy, Ending}
use nice_audio_player.Prelude.{
  ◌&&◌, not, Bool, if-cases, Option-cases, ◌⊎◌, true, refl, is_some, false, ◌≡◌, ◌∷◌, ◌<◌, ℕ, some,
  none, leb, inr, inl, if◌then◌else◌, arith, [], Option, List, Bool-cases,
}
use nice_audio_player.BTree.{Keys}
use nice_audio_player.BTree
use nice_audio_player.Library.Sync.State.{
  started, registered, enabled, disabled, removed, missing_deleted, scan_requested,
  cancel_requested, folder_changed, paths_changed, watch_attached, attach_failed, scan_finished,
  gc_finished, tick,
}
use nice_audio_player.Library.Sync.State.{
  gc_finished, scan_finished, attach_failed, watch_attached, paths_changed, folder_changed,
  scan_requested, removed, disabled, enabled, ScanOutcome, registered, started, State, Dirty, Watch,
  failed, attaching, attached, Input,
}
use nice_audio_player.Library.Sync.Step.{
  after_scan, watch, is_failed, release, watch_all, on_scan_finished, on_attached, Acts, next_retry,
  retry, handle, earliest, scanning, is_nil,
}

-- An instant that is there is after `now`.
abbrev pub After : ℕ → Option ℕ → Type 0
After now none = Unit
After now (some t) = now < t

pub After-earliest :
    (now : ℕ) (a b : Option ℕ) → After now a → After now b → After now (earliest a b)
After-earliest now none b x y = y
After-earliest now (some a) none x y = x
After-earliest now (some a) (some b) x y = omega arith

pub next_retry-retry : (ws : List (ℕ × Watch)) (now : ℕ) → After now (next_retry (retry ws now).0)
unfolding next_retry retry
next_retry-retry [] now = tt
next_retry-retry ((id, attaching) ∷ ws) now = next_retry-retry ws now
next_retry-retry ((id, attached) ∷ ws) now = next_retry-retry ws now
next_retry-retry ((id, failed none) ∷ ws) now = next_retry-retry ws now
next_retry-retry ((id, failed (some at)) ∷ ws) now = elim (Bool-cases (leb at now)) [
  | inl due ↦ rw due (next_retry-retry ws now)
  | inr later ↦ rw later (After-earliest now (some at) _ (ground arith) (next_retry-retry ws now))
]

module _ (paths : Keys) where
  -- What is left after `start_due`: no wakeup in the past, and nothing waiting without one.
  pub record Planned (s : State paths) (now : ℕ) : Type 0 where
    pub later : After now (if scanning paths s then none else s.debounce)
    pub planned : is_nil s.dirty ≡ false → is_some s.debounce ≡ true
    pub collected : s.gc_pending ≡ true → (scanning paths s ≡ true) ⊎ (is_some s.debounce ≡ true)

  pub start_due-Planned :
      (s : State paths) (now : ℕ) (o : Acts paths)
      → Ending paths s now o
      → (is_nil s.dirty ≡ false → is_some s.debounce ≡ true)
      → (o.0.watches ≡ s.watches) × Planned o.0 now
  unfolding scanning
  start_due-Planned s now _ (busy run) h =
      (refl, record { later = rw run tt; planned = h; collected = λ _. inl (rw run refl) })
  start_due-Planned s now _ (starts p d n) h =
      (refl, record { later = tt; planned = λ e. cc; collected = λ _. inl refl })
  start_due-Planned s now _ (collects p g n) h =
      (refl, record { later = rw p tt; planned = λ e. ground (arith, n, e); collected = λ e. cc })
  start_due-Planned s now _ (clears p g n) h = (
    refl,
    record {
      later = rw p tt;
      planned = λ e. ground (arith, n, e);
      collected = λ e. ground (arith, g, e);
    },
  )
  start_due-Planned s now _ (waits due p d l) h =
      (refl, record { later = rw (p, d) l; planned = h; collected = λ _. inr (rw d refl) })
  start_due-Planned s now _ (rests p d g) h = (
    refl,
    record { later = rw (p, d) tt; planned = h; collected = λ e. inr (h (ground (arith, e, g))) },
  )

  -- Where something is waiting to be scanned, an instant is set for it.
  abbrev pub Waits : State paths → Type 0
  Waits s = is_nil s.dirty ≡ false → is_some s.debounce ≡ true

  watch_all-Waits : (s : State paths) (ids : List ℕ) → Waits s → Waits (watch_all paths s ids).0
  unfolding watch_all watch
  watch_all-Waits s [] h = h
  watch_all-Waits s (id ∷ ids) h = watch_all-Waits (watch paths s id).0 ids h

  remove_nil :
      (id : ℕ) (m : List (ℕ × Dirty paths)) → is_nil (BTree.remove id m) ≡ false → is_nil m ≡ false
  unfolding BTree.remove
  remove_nil id [] e = e
  remove_nil id (x ∷ m) e = refl

  release-Waits : (s : State paths) (id : ℕ) → Waits s → Waits (release paths s id).0
  unfolding release
  release-Waits s id h =
      if-cases (λ (o : Acts paths). Waits o.0) (BTree.contains_key id s.watches) _ _
        (λ _ e. h (remove_nil id s.dirty e)) (λ _ e. h (remove_nil id s.dirty e))

  on_attached-Waits :
      (s : State paths) (id now : ℕ) → Waits s → Waits (on_attached paths s id now).0
  unfolding on_attached
  on_attached-Waits s id now h = elim (Option-cases (BTree.get id s.watches)) [
    | inl e ↦ rw (e, on_attached) h
    | inr (w, e) ↦
        rw (e, on_attached)
          (if-cases (λ (t : State paths). Waits t) (is_failed w) _ _ (λ _ _. refl) (λ _. h))
  ]

  on_scan_finished-Waits :
      (s : State paths) (outcome : ScanOutcome) (now : ℕ)
      → Waits (on_scan_finished paths s outcome now)
  unfolding on_scan_finished
  on_scan_finished-Waits s outcome now =
      if-cases Waits (not (is_nil s₁.dirty) && not (is_some s₁.debounce)) _ _ (λ _ _. refl)
        (λ c e. wanted (is_nil s₁.dirty) (is_some s₁.debounce) c e)
    where
      s₁ : State paths
      s₁ = after_scan paths s outcome

      wanted : (a b : Bool) → (not a && not b) ≡ false → a ≡ false → b ≡ true
      wanted a b c e = ground arith

  pub handle-Waits :
      (s : State paths) (input : Input paths) (now : ℕ)
      → Waits s
      → Waits (handle paths s input now).0
  unfolding handle
  handle-Waits s (started ids) now h = watch_all-Waits _ ids (λ _. refl)
  handle-Waits s (registered id) now h = λ _. refl
  handle-Waits s (enabled id) now h = λ _. refl
  handle-Waits s (disabled id) now h = release-Waits s id h
  handle-Waits s (removed id) now h = release-Waits s id h
  handle-Waits s missing_deleted now h = h
  handle-Waits s (scan_requested roots) now h =
      if-cases (λ (o : Acts paths). Waits o.0) (scanning paths s) _ _ (λ _. h) (λ _ e. cc)
  handle-Waits s cancel_requested now h = λ e. cc
  handle-Waits s (folder_changed id) now h =
      if-cases (λ (o : Acts paths). Waits o.0) (BTree.contains_key id s.watches) _ _ (λ _ _. refl)
        (λ _. h)
  handle-Waits s (paths_changed root ps) now h =
      if-cases (λ (o : State paths). Waits o) (BTree.contains_key root s.watches) _ _ (λ _ _. refl)
        (λ _. h)
  handle-Waits s (watch_attached id) now h = on_attached-Waits s id now h
  handle-Waits s (attach_failed id) now h =
      if-cases (λ (o : Acts paths). Waits o.0) (BTree.contains_key id s.watches) _ _ (λ _. h)
        (λ _. h)
  handle-Waits s (scan_finished outcome) now h = on_scan_finished-Waits s outcome now
  handle-Waits s (gc_finished rescan) now h =
      if-cases (λ (o : Acts paths). Waits o.0) (is_nil rescan) _ _ (λ _. h) (λ _ _. refl)
  handle-Waits s tick now h = h

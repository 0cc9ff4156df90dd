-- ===== src/Library/Sync/Step.antt =====
-- The transition of the sync actor (`State::step` of backend/src/library/sync/step.rs). Each
-- function returns the state and the effects that it pushes, in their order.
use nice_audio_player.Prelude.{
  ◌∷◌, ◌+◌, ◌++◌, ◌&&◌, ℕ, true, some, not, none, min, map, leb, is_some, if◌then◌else◌, false, [],
  Option, List, Bool,
}
use nice_audio_player.BTree.{Keys}
use nice_audio_player.BTree
use nice_audio_player.Library.Sync.State.{
  watch_retry, startup_delay, everything, only_dirs, started, registered, enabled, disabled,
  removed, missing_deleted, scan_requested, cancel_requested, folder_changed, paths_changed,
  watch_attached, attach_failed, scan_finished, gc_finished, tick, start_scan, cancel_scan, run_gc,
  attach, detach,
}
use nice_audio_player.Library.Sync.State.{
  failed_scan, cancelled, attached, completed, failed, attaching, ScanOutcome, running, idle, Watch,
  ScanTarget, Input, Effect, debounce_time, State, Phase, Dirty,
}

abbrev pub is_running : Phase → Bool
is_running idle = false
is_running running = true

-- `Option::is_some_and(|due| due <= now)`.
abbrev pub is_due : Option ℕ → ℕ → Bool
is_due none now = false
is_due (some due) now = leb due now

-- `Iterator::min` over instants.
abbrev pub earliest : Option ℕ → Option ℕ → Option ℕ
earliest none b = b
earliest (some a) none = some a
earliest (some a) (some b) = some (min a b)

-- The earliest `retry_at` of the failed watches.
unfoldable pub next_retry : List (ℕ × Watch) → Option ℕ
next_retry [] = none
next_retry ((id, failed at) ∷ ws) = earliest at (next_retry ws)
next_retry ((id, _) ∷ ws) = next_retry ws

-- Whether the watch is a failed one, whatever it waits for.
abbrev pub is_failed : Watch → Bool
is_failed (failed at) = true
is_failed _ = false

abbrev pub is_nil {ℓ} : {A : Type ℓ} → List A → Bool
is_nil [] = true
is_nil (x ∷ xs) = false

-- The loop of `advance` over the watches: what it leaves, and the folders it attaches again.
unfoldable pub retry : List (ℕ × Watch) → ℕ → List (ℕ × Watch) × List ℕ
retry [] now = ([], [])
retry ((id, failed (some at)) ∷ ws) now =
    let (rest, ids) = retry ws now in
    if leb at now
    then ((id, failed none) ∷ rest, id ∷ ids)
    else ((id, failed (some at)) ∷ rest, ids)
retry ((id, w) ∷ ws) now = let (rest, ids) = retry ws now in ((id, w) ∷ rest, ids)

module _ (paths : Keys) where
  open paths use {Key}

  abbrev pub Acts : Type 0
  Acts = State paths × List (Effect paths)

  unfoldable pub new : State paths
  new = record { dirty = []; debounce = none; gc_pending = false; phase = idle; watches = [] }

  unfoldable pub scanning : State paths → Bool
  scanning s = is_running s.phase

  unfoldable pub next_wakeup : State paths → Option ℕ
  unfolding scanning next_retry
  next_wakeup s = earliest (next_retry s.watches) (if scanning s then none else s.debounce)

  abbrev pub whole : ℕ → ScanTarget paths
  whole id = record { root = id; dirs = none }

  unfoldable pub mark_everything : State paths → ℕ → State paths
  mark_everything s id = record s { dirty = BTree.insert id everything s.dirty }

  unfoldable pub mark_all : State paths → List ℕ → State paths
  unfolding mark_everything
  mark_all s [] = s
  mark_all s (id ∷ ids) = mark_all (mark_everything s id) ids

  unfoldable pub watch : State paths → ℕ → Acts
  watch s id = (record s { watches = BTree.insert id attaching s.watches }, attach id ∷ [])

  unfoldable pub watch_all : State paths → List ℕ → Acts
  unfolding watch
  watch_all s [] = (s, [])
  watch_all s (id ∷ ids) =
      let (s₁, e₁) = watch s id in let (s₂, e₂) = watch_all s₁ ids in (s₂, e₁ ++ e₂)

  unfoldable pub release : State paths → ℕ → Acts
  release s id =
      let s₁ = record s { dirty = BTree.remove id s.dirty; watches = BTree.remove id s.watches } in
      if BTree.contains_key id s.watches then (s₁, detach id ∷ []) else (s₁, [])

  -- `Some(watch)` in `attached`.
  abbrev pub attached_watch : State paths → ℕ → ℕ → Watch → State paths
  attached_watch s id now w =
      let s₁ = mark_everything s id in
      let s₂ = if is_failed w then record s₁ { debounce = some now } else s in
      record s₂ { watches = BTree.insert id attached s.watches }

  unfoldable pub on_attached : State paths → ℕ → ℕ → Acts
  unfolding mark_everything
  on_attached s id now = elim (BTree.get id s.watches) [
    | none ↦ (s, detach id ∷ [])
    | some w ↦ (attached_watch s id now w, [])
  ]

  -- What the outcome of a scan changes, before the changes that came in meanwhile.
  abbrev pub after_scan : State paths → ScanOutcome → State paths
  after_scan s completed = record s { phase = idle; gc_pending = true }
  after_scan s cancelled = record s { phase = idle; dirty = []; debounce = none }
  after_scan s failed_scan = record s { phase = idle }

  unfoldable pub on_scan_finished : State paths → ScanOutcome → ℕ → State paths
  on_scan_finished s outcome now =
      let s₁ = after_scan s outcome in
      if not (is_nil s₁.dirty) && not (is_some s₁.debounce)
      then record s₁ { debounce = some now }
      else s₁

  -- The changed paths of a folder, among what is waiting to be scanned in it.
  unfoldable pub add_paths : Option (Dirty paths) → List Key → Dirty paths
  add_paths none ps = only_dirs (BTree.extend paths [] ps)
  add_paths (some everything) ps = everything
  add_paths (some (only_dirs ds)) ps = only_dirs (BTree.extend paths ds ps)

  unfoldable pub on_paths_changed : State paths → ℕ → List Key → ℕ → State paths
  unfolding add_paths
  on_paths_changed s root ps now =
      if BTree.contains_key root s.watches
      then record s {
        dirty = BTree.insert root (add_paths (BTree.get root s.dirty) ps) s.dirty;
        debounce = some (now + debounce_time);
      }
      else s

  -- The `match` of `step`.
  unfoldable pub handle : State paths → Input paths → ℕ → Acts
  unfolding mark_everything mark_all watch watch_all release on_attached on_scan_finished
      on_paths_changed scanning
  handle s (started ids) now =
      watch_all
        (record (mark_all (record s { gc_pending = true }) ids) {
          debounce = some (now + startup_delay);
        })
        ids
  handle s (registered id) now = watch (record (mark_everything s id) { debounce = some now }) id
  handle s (enabled id) now = watch (record (mark_everything s id) { debounce = some now }) id
  handle s (disabled id) now = release s id
  handle s (removed id) now = let (s₁, e) = release s id in (record s₁ { gc_pending = true }, e)
  handle s missing_deleted now = (record s { gc_pending = true }, [])
  handle s (scan_requested roots) now = if scanning s then (s, []) else (
    record s { dirty = []; debounce = none; phase = running },
    start_scan (map whole roots) ∷ [],
  )
  handle s cancel_requested now =
      (record s { dirty = []; debounce = none }, if scanning s then cancel_scan ∷ [] else [])
  handle s (folder_changed id) now =
      if BTree.contains_key id s.watches
      then (record (mark_everything s id) { debounce = some (now + debounce_time) }, [])
      else (s, [])
  handle s (paths_changed root ps) now = (on_paths_changed s root ps now, [])
  handle s (watch_attached id) now = on_attached s id now
  handle s (attach_failed id) now =
      if BTree.contains_key id s.watches
      then (
        record s { watches = BTree.insert id (failed (some (now + watch_retry))) s.watches },
        [],
      )
      else (s, [])
  handle s (scan_finished outcome) now = (on_scan_finished s outcome now, [])
  handle s (gc_finished rescan) now =
      if is_nil rescan then (s, []) else (record (mark_all s rescan) { debounce = some now }, [])
  handle s tick now = (s, [])

  abbrev pub dirs_of : Dirty paths → Option (List Key)
  dirs_of everything = none
  dirs_of (only_dirs ds) = some ds

  abbrev pub target : ℕ × Dirty paths → ScanTarget paths
  target (root, d) = record { root = root; dirs = dirs_of d }

  -- The collection at the end of `advance`.
  unfoldable pub collect : State paths → Acts
  collect s =
      if s.gc_pending && (not (is_some s.debounce) && is_nil s.dirty)
      then (record s { gc_pending = false }, run_gc ∷ [])
      else (s, [])

  -- What `advance` does after the retries.
  unfoldable pub start_due : State paths → ℕ → Acts
  unfolding scanning collect
  start_due s now =
      if scanning s
      then (s, [])
      else if is_due s.debounce now
      then (if is_nil s.dirty then collect (record s { debounce = none }) else (
        record s { debounce = none; phase = running; dirty = [] },
        start_scan (map target s.dirty) ∷ [],
      ))
      else collect s

  unfoldable pub advance : State paths → ℕ → Acts
  unfolding start_due retry
  advance s now =
      let (ws, ids) = retry s.watches now in
      let (s₁, e) = start_due (record s { watches = ws }) now in (s₁, map attach ids ++ e)

  unfoldable pub step : State paths → Input paths → ℕ → Acts
  unfolding handle advance
  step s input now =
      let (s₁, e₁) = handle s input now in let (s₂, e₂) = advance s₁ now in (s₂, e₁ ++ e₂)

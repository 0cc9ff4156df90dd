-- ===== src/Library/Sync/State.antt =====
-- The state of the sync actor, its inputs and its effects (backend/src/library/sync/step.rs). A
-- root number is the row id of a folder; an instant is a number of nanoseconds; the paths and their
-- order are a parameter.
use nice_audio_player.Prelude.{◌*◌, ℕ, Option, List, Bool}
use nice_audio_player.BTree.{Keys}

-- `Duration::from_millis` and `Duration::from_secs`.
abbrev from_millis : ℕ → ℕ
from_millis n = n * 1000000

abbrev from_secs : ℕ → ℕ
from_secs n = n * 1000000000

abbrev pub debounce_time : ℕ
debounce_time = from_millis 500

abbrev pub startup_delay : ℕ
startup_delay = from_millis 500

abbrev pub watch_retry : ℕ
watch_retry = from_secs 10

pub data Phase : Type 0 where
  idle running : Phase

pub data Watch : Type 0 where
  attaching : Watch
  attached : Watch
  failed : Option ℕ → Watch

pub data ScanOutcome : Type 0 where
  completed cancelled failed_scan : ScanOutcome

module _ (paths : Keys) where
  open paths use {Key}

  -- What a scan of one folder covers; `none` walks the whole folder.
  pub record ScanTarget : Type 0 where
    pub root : ℕ
    pub dirs : Option (List Key)

  pub data Dirty : Type 0 where
    everything : Dirty
    only_dirs : List Key → Dirty

  pub data Input : Type 0 where
    started : List ℕ → Input
    registered enabled disabled removed : ℕ → Input
    missing_deleted : Input
    scan_requested : List ℕ → Input
    cancel_requested : Input
    folder_changed : ℕ → Input
    paths_changed : ℕ → List Key → Input
    watch_attached attach_failed : ℕ → Input
    scan_finished : ScanOutcome → Input
    gc_finished : List ℕ → Input
    tick : Input

  pub data Effect : Type 0 where
    start_scan : List ScanTarget → Effect
    cancel_scan run_gc : Effect
    attach detach : ℕ → Effect

  pub record State : Type 0 where
    pub dirty : List (ℕ × Dirty)
    pub debounce : Option ℕ
    pub gc_pending : Bool
    pub phase : Phase
    pub watches : List (ℕ × Watch)

-- ===== src/Tests/Sync.antt =====
-- A watched folder in which something changes, and what the theorems say of it.
use nice_audio_player.Prelude.{
  inr, inl, ◌⊎◌, ◌≤◌, ◌≡◌, ◌∷◌, ◌<◌, ◌+◌, ℕ, true, some, refl, none, ltb, ge_of_ltb, false, arith,
  [],
}
use nice_audio_player.BTree.{Keys}
use nice_audio_player.BTree
use nice_audio_player.Library.Sync.State.{
  started, State, everything, registered, paths_changed, folder_changed, tick, idle, attached,
  debounce_time, Dirty,
}
use nice_audio_player.Library.Sync.Step.{step, next_wakeup, scanning, new}
use nice_audio_player.Library.Sync.Pending.{
  Reachable, launched, stepped, step-wakeup_later, pending-wakeup,
}
use nice_audio_player.Library.Sync.Protocol.{follow, step-Agrees}
use nice_audio_player.Library.Sync.Changes.{Scans, DueAt, tick-exact, folder_changed-DueAt}
use nice_audio_player.Library.Sync.State.{disabled, removed}
use nice_audio_player.Library.Sync.Gone.{Dropped, Gone, disabled-Gone}
use nice_audio_player.Library.Sync.Release.{step-Gone}
use nice_audio_player.Library.Sync.Paths.{Covers, ScansPath, paths_changed-scanned}

abbrev numbers : Keys
numbers = record {
  Key = ℕ;
  lt = ltb;
  equal_of_neither = λ a b h k. omega (arith, ge_of_ltb a b h, ge_of_ltb b a k);
}

-- Folder 7 is watched and nothing is going on.
abbrev quiet : State numbers
quiet = record {
  dirty = [];
  debounce = none;
  gc_pending = false;
  phase = idle;
  watches = (7, attached) ∷ [];
}

step-Agrees_example :
    follow numbers false (step numbers quiet (registered 7) 5).1
    ≡ some (scanning numbers (step numbers quiet (registered 7) 5).0)
unfolding scanning
step-Agrees_example = step-Agrees numbers quiet (registered 7) 5

-- The folder is enabled when the actor starts, and a scan is put off by the start-up delay.
abbrev starting : State numbers
starting = (step numbers (new numbers) (started (7 ∷ [])) 3).0

starting-Reachable : Reachable numbers starting
starting-Reachable = stepped (started (7 ∷ [])) 3 launched

pending-wakeup_example :
    (scanning numbers starting ≡ true) ⊎ ((t : ℕ) × (next_wakeup numbers starting ≡ some t))
unfolding step new BTree.insert
pending-wakeup_example = pending-wakeup numbers starting starting-Reachable (inl refl)

step-wakeup_later_example : 3 < 500000003
unfolding next_wakeup step new BTree.insert
step-wakeup_later_example =
    step-wakeup_later numbers (new numbers) (started (7 ∷ [])) 3 500000003 launched refl

paths_changed-scanned_example :
    (let s' = (step numbers quiet (paths_changed 7 (4 ∷ [])) 100).0 in
      ((100 + debounce_time ≤ 600000000) × ScansPath numbers 7 4 (step numbers s' tick 600000000).1)
      ⊎ ((600000000 < 100 + debounce_time)
          × ((d : Dirty numbers) × Covers numbers 4 d
              × DueAt numbers (100 + debounce_time) 7 d (step numbers s' tick 600000000).0)))
unfolding scanning BTree.get
paths_changed-scanned_example =
    paths_changed-scanned numbers quiet 7 100 600000000 (4 ∷ []) 4 refl refl (inr (0, refl))

abbrev waiting : State numbers
waiting = record quiet { dirty = (7, everything) ∷ []; debounce = some 50 }

tick-exact_example :
    ((50 ≤ 60) × Scans numbers 7 everything (step numbers waiting tick 60).1)
    ⊎ ((60 < 50) × DueAt numbers 50 7 everything (step numbers waiting tick 60).0)
unfolding scanning BTree.get
tick-exact_example = tick-exact numbers waiting 7 50 60 everything (refl, refl, refl)

folder_changed-DueAt_example :
    DueAt numbers (20 + debounce_time) 7 everything (step numbers quiet (folder_changed 7) 20).0
unfolding scanning BTree.get
folder_changed-DueAt_example = folder_changed-DueAt numbers quiet 7 20 refl refl

disabled-Gone_example :
    (Gone numbers 7 (step numbers waiting (disabled 7) 3).0
      × Dropped numbers 7 waiting (step numbers waiting (disabled 7) 3).1)
    × (Gone numbers 7 (step numbers waiting (removed 7) 3).0
        × Dropped numbers 7 waiting (step numbers waiting (removed 7) 3).1)
disabled-Gone_example = disabled-Gone numbers 7 waiting 3

step-Gone_example : Gone numbers 9 (step numbers waiting (folder_changed 9) 3).0
unfolding BTree.get
step-Gone_example =
    step-Gone numbers 9 waiting (folder_changed 9) 3 refl
      (record { nothing_waits = refl; not_watched = refl })

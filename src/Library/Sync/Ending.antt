-- ===== src/Library/Sync/Ending.antt =====
-- The ways in which `advance` of the sync actor ends, once the watches are retried.
use nice_audio_player.Prelude.{
  ◌≡◌, ◌∷◌, ◌<◌, ◌&&◌, ℕ, true, some, refl, none, map, leb, inr, inl, false, arith, [], Option,
  List, Bool-cases, Bool,
}
use nice_audio_player.BTree.{Keys}
use nice_audio_player.Library.Sync.State.{
  State, Phase, Dirty, Watch, idle, running, start_scan, run_gc,
}
use nice_audio_player.Library.Sync.Step.{start_due, is_due, scanning, collect, is_nil, Acts, target}

module _ (paths : Keys) where
  -- What `start_due` makes of a state, by what is due in it.
  pub data Ending (s : State paths) (now : ℕ) : Acts paths → Type 0 where
    busy : s.phase ≡ running → Ending s now (s, [])
    starts :
        s.phase ≡ idle
        → is_due s.debounce now ≡ true
        → is_nil s.dirty ≡ false
        → Ending s now (
          record s { dirty = []; debounce = none; phase = running },
          start_scan (map (target paths) s.dirty) ∷ [],
        )
    collects :
        s.phase ≡ idle
        → s.gc_pending ≡ true
        → is_nil s.dirty ≡ true
        → Ending s now (record s { debounce = none; gc_pending = false }, run_gc ∷ [])
    clears :
        s.phase ≡ idle
        → s.gc_pending ≡ false
        → is_nil s.dirty ≡ true
        → Ending s now (record s { debounce = none }, [])
    waits : (due : ℕ) → s.phase ≡ idle → s.debounce ≡ some due → now < due → Ending s now (s, [])
    rests :
        s.phase ≡ idle
        → s.debounce ≡ none
        → (s.gc_pending && is_nil s.dirty) ≡ false
        → Ending s now (s, [])

  Ending-by_fields :
      (dirty : List (ℕ × Dirty paths)) (debounce : Option ℕ) (gc : Bool) (phase : Phase)
      (watches : List (ℕ × Watch)) (now : ℕ)
      → (let s : State paths = record {
        dirty = dirty;
        debounce = debounce;
        gc_pending = gc;
        phase = phase;
        watches = watches;
      } in
          Ending s now (start_due paths s now))
  unfolding start_due scanning collect
  Ending-by_fields dirty debounce gc running ws now = busy refl
  Ending-by_fields [] none true idle ws now = collects refl refl refl
  Ending-by_fields [] none false idle ws now = rests refl refl refl
  Ending-by_fields (d ∷ ds) none true idle ws now = rests refl refl refl
  Ending-by_fields (d ∷ ds) none false idle ws now = rests refl refl refl
  Ending-by_fields [] (some due) true idle ws now = elim (Bool-cases (leb due now)) [
    | inl e ↦ rw e (collects refl refl refl)
    | inr e ↦ rw e (waits due refl refl (ground arith))
  ]
  Ending-by_fields [] (some due) false idle ws now = elim (Bool-cases (leb due now)) [
    | inl e ↦ rw e (clears refl refl refl)
    | inr e ↦ rw e (waits due refl refl (ground arith))
  ]
  Ending-by_fields (d ∷ ds) (some due) true idle ws now = elim (Bool-cases (leb due now)) [
    | inl e ↦ rw e (starts refl e refl)
    | inr e ↦ rw e (waits due refl refl (ground arith))
  ]
  Ending-by_fields (d ∷ ds) (some due) false idle ws now = elim (Bool-cases (leb due now)) [
    | inl e ↦ rw e (starts refl e refl)
    | inr e ↦ rw e (waits due refl refl (ground arith))
  ]

  pub start_due-Ending : (s : State paths) (now : ℕ) → Ending s now (start_due paths s now)
  start_due-Ending s now = Ending-by_fields s.dirty s.debounce s.gc_pending s.phase s.watches now

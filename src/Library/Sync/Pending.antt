-- ===== src/Library/Sync/Pending.antt =====
-- The work that waits in a state of the sync actor, and its wakeups
-- (backend/src/library/sync/step.rs).
use nice_audio_player.Library.Sync.Ending.{start_due-Ending}
use nice_audio_player.Prelude.{
  min, ◌⊎◌, true, refl, is_some, false, ◌≡◌, ◌<◌, ℕ, some, none, inr, inl, arith, Option,
  Bool-cases,
}
use nice_audio_player.BTree.{Keys}
use nice_audio_player.Library.Sync.State.{State, Input}
use nice_audio_player.Library.Sync.Step.{
  new, next_retry, retry, advance, step, next_wakeup, earliest, scanning, is_nil,
}
use nice_audio_player.Library.Sync.Wakeups.{
  After, After-earliest, next_retry-retry, Planned, start_due-Planned, Waits, handle-Waits,
}
use nice_audio_player.Library.Sync.Step.{new}

module _ (paths : Keys) where
  advance-Planned :
      (s : State paths) (now : ℕ)
      → Waits paths s
      → After now (next_wakeup paths (advance paths s now).0)
        × Planned paths (advance paths s now).0 now
  unfolding advance next_wakeup
  advance-Planned s now h =
      let s₁ : State paths = record s { watches = (retry s.watches now).0 } in
      let (kept, planned) = start_due-Planned paths s₁ now _ (start_due-Ending paths s₁ now) h in
      (After-earliest now _ _ (rw kept (next_retry-retry s.watches now)) planned.later, planned)

  -- The states that the actor reaches, its inputs and their times being any.
  pub data Reachable : State paths → Type 0 where
    launched : Reachable (new paths)
    stepped :
        {s : State paths} (input : Input paths) (now : ℕ)
        → Reachable s
        → Reachable (step paths s input now).0

  pub Reachable-Waits : {s : State paths} → Reachable s → Waits paths s
  unfolding step new
  Reachable-Waits launched = λ e. cc
  Reachable-Waits (stepped {s = s} input now before) =
      (advance-Planned _ now (handle-Waits paths s input now (Reachable-Waits before))).1.planned

  step-Planned :
      (s : State paths) (input : Input paths) (now : ℕ)
      → Reachable s
      → After now (next_wakeup paths (step paths s input now).0)
        × Planned paths (step paths s input now).0 now
  unfolding step
  step-Planned s input now reached =
      advance-Planned _ now (handle-Waits paths s input now (Reachable-Waits reached))

  -- After a step at `now`, the actor asks to be woken only later than `now`: it never spins.
  pub step-wakeup_later :
      (s : State paths) (input : Input paths) (now t : ℕ)
      → Reachable s
      → next_wakeup paths (step paths s input now).0 ≡ some t
      → now < t
  step-wakeup_later s input now t reached e = rw e at (step-Planned s input now reached).0

  earliest_lem : (a b : Option ℕ) → is_some b ≡ true → (t : ℕ) × (earliest a b ≡ some t)
  earliest_lem none none e = cc
  earliest_lem none (some t) e = (t, refl)
  earliest_lem (some t) none e = cc
  earliest_lem (some t) (some u) e = (min t u, refl)

  -- No work is forgotten: in a reachable state where a folder waits to be scanned, or the artwork
  -- to be collected, a scan is running or the actor asks to be woken.
  pub pending-wakeup :
      (s : State paths)
      → Reachable s
      → (is_nil s.dirty ≡ false) ⊎ (s.gc_pending ≡ true)
      → (scanning paths s ≡ true) ⊎ ((t : ℕ) × (next_wakeup paths s ≡ some t))
  unfolding next_wakeup new
  pending-wakeup _ launched work = absurd (ground arith)
  pending-wakeup _ (stepped {s = s} input now before) work =
      let p = (step-Planned s input now before).1 in
      let s' = (step paths s input now).0 in
      if_planned s' (elim work [ inl e ↦ inr (p.planned e) | inr e ↦ p.collected e ])
        (Bool-cases (scanning paths s'))
    where
      if_planned :
          (s : State paths)
          → (scanning paths s ≡ true) ⊎ (is_some s.debounce ≡ true)
          → (scanning paths s ≡ true) ⊎ (scanning paths s ≡ false)
          → (scanning paths s ≡ true) ⊎ ((t : ℕ) × (next_wakeup paths s ≡ some t))
      if_planned s d (inl run) = inl run
      if_planned s (inl run) (inr rest) = inl run
      if_planned s (inr due) (inr rest) =
          let (t, e) = earliest_lem (next_retry s.watches) s.debounce due in inr (t, rw rest e)

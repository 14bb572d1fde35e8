-- ===== src/Reap/Stopping.antt =====
-- An idle daemon stops: the other side of the window before a reap.
use agent_monitors.Prelude.{
  ℕ, ◌+◌, ◌≤◌, ◌<◌, ◌≡◌, inl, inr, refl, subst, max, true, some, List, [], ◌∷◌, Text, arith, All,
  In, Bool-cases, or_else, is_some,
}
use agent_monitors.Reap.{ShouldReapInput, should_reap, boot_grace}
use agent_monitors.Reap.Daemon.{Round, Daemon, input, after, run}
use agent_monitors.Reap.Decision.{should_reap_iff, should_reap-idle_since}
use agent_monitors.Reap.Window.{IsIdle}

module _ (resolve : Text → Text) (workspace socket : Text) (reap_after_ms : ℕ)
    (enabled : 0 < reap_after_ms) where
  step : Daemon → Round → ShouldReapInput
  step = input resolve workspace socket reap_after_ms

  Idle : Round → Type 0
  Idle = IsIdle resolve workspace socket reap_after_ms

  -- An idle round keeps the start of the window.
  keeps_since :
      (d : Daemon) (r : Round)
      → Idle r
      → (should_reap (step d r)).next_idle_since ≡ some (or_else d.idle_since r.now)
  unfolding step Idle
  keeps_since d r i =
      (should_reap-idle_since (step d r) (or_else d.idle_since r.now)).1 (enabled, i.0, i.1, refl)

  reaps_late :
      (d : Daemon) (r : Round)
      → Idle r
      → or_else d.idle_since r.now + max reap_after_ms boot_grace ≤ r.now
      → (should_reap (step d r)).reap ≡ true
  unfolding step Idle
  reaps_late d r i late = (should_reap_iff (step d r)).1 (enabled, i.0, i.1, ground arith)

  -- A daemon with reaping enabled that goes through a sequence of rounds, none of which has an open
  -- session or an attached channel, stops itself if one of them is as late as the reaping time and
  -- the boot grace after the start of its idle time, whichever of the two is longer. The idle
  -- time started at the first round if it was not running.
  pub run_stops :
      (d : Daemon) (past : List Round) (first : Round) (rounds : List Round) (late : Round)
      → All (IsIdle resolve workspace socket reap_after_ms) (first ∷ rounds)
      → In late (first ∷ rounds)
      → or_else d.idle_since first.now + max reap_after_ms boot_grace ≤ late.now
      → is_some (run resolve workspace socket reap_after_ms d past (first ∷ rounds)) ≡ true
  unfolding run step Idle
  run_stops d past r rs late i (inl here) h =
      rw
        (reaps_late d r i.0 (
          subst (λ (z : Round). or_else d.idle_since r.now + max reap_after_ms boot_grace ≤ z.now)
            here h))
        refl
  run_stops d past r [] late i (inr there) h = elim there [ ]
  run_stops d past r (q ∷ rs) late i (inr there) h =
      elim (Bool-cases (should_reap (step d r)).reap) [
        | inl stop ↦ rw stop refl
        | inr go ↦
            let next = after resolve workspace socket reap_after_ms (should_reap (step d r)) in
            rw go (run_stops next (r ∷ past) q rs late i.1 there (rw (keeps_since d r i.0) h))
      ]

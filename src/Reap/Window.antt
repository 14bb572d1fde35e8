-- ===== src/Reap/Window.antt =====
-- The rounds before a reap: the daemon never stops within the required window after activity.
use agent_monitors.Prelude.{
  ℕ, ◌+◌, ◌≤◌, ◌≡◌, ◌⊎◌, inl, inr, refl, subst, max, true, false, some, List, [], ◌∷◌, Text, arith,
  All, Bool-cases, Option-cases, or_else,
}
use agent_monitors.Reap.{ShouldReapInput, should_reap, boot_grace}
use agent_monitors.Reap.Daemon.{Round, Daemon, booted, channel_attached, input, after, run}
use agent_monitors.Reap.Decision.{should_reap_iff, should_reap-idle_since}

module _ (resolve : Text → Text) (workspace socket : Text) (reap_after_ms : ℕ) where
  -- No session is open and no channel is attached.
  abbrev pub IsIdle : Round → Type 0
  IsIdle r =
      (r.open_count ≡ 0) × (channel_attached resolve workspace socket reap_after_ms r ≡ false)

  -- The newest rounds are idle, back to one at the time `since`.
  abbrev pub IdleFrom : ℕ → List Round → Type 0
  IdleFrom since [] = ⊥
  IdleFrom since (r ∷ past) = IsIdle r × ((r.now ≡ since) ⊎ IdleFrom since past)

abbrev pub NoSession : Round → Type 0
NoSession r = (r.open_count ≡ 0) × (r.any_session ≡ false)

module _ (resolve : Text → Text) (workspace socket : Text) (reap_after_ms : ℕ) where
  record Tracks (d : Daemon) (past : List Round) : Type 0 where
    idle :
        (since : ℕ)
        → d.idle_since ≡ some since
        → IdleFrom resolve workspace socket reap_after_ms since past
    unseen : All NoSession past → d.has_seen_session ≡ false

  step : Daemon → Round → ShouldReapInput
  step = input resolve workspace socket reap_after_ms

  idle_step :
      (d : Daemon) (past : List Round) (r : Round) (since : ℕ)
      → Tracks d past
      → (should_reap (step d r)).next_idle_since ≡ some since
      → IdleFrom resolve workspace socket reap_after_ms since (r ∷ past)
  unfolding step
  idle_step d past r since t e =
      let p = (should_reap-idle_since (step d r) since).0 e in
      elim (Option-cases d.idle_since) [
        | inl new ↦ ((p.1, p.2), inl (ground arith))
        | inr (s, old) ↦ ((p.1, p.2), inr (t.idle since (ground arith)))
      ]

  unseen_step :
      (d : Daemon) (past : List Round) (r : Round)
      → Tracks d past
      → All NoSession (r ∷ past)
      → (should_reap (step d r)).next_has_seen_session ≡ false
  unfolding step should_reap
  unseen_step d past r t n = ground (arith, t.unseen n.1)

  step-Tracks :
      (d : Daemon) (past : List Round) (r : Round)
      → Tracks d past
      → Tracks (after resolve workspace socket reap_after_ms (should_reap (step d r))) (r ∷ past)
  step-Tracks d past r t = record {
    idle = λ since e. idle_step d past r since t e;
    unseen = λ n. unseen_step d past r t n;
  }

  -- The window that ends in a reap: where it began, how long it was, and that all of it was idle.
  abbrev pub Window : List Round → Type 0
  Window [] = ⊥
  Window (r ∷ past) =
      (since : ℕ) × IdleFrom resolve workspace socket reap_after_ms since (r ∷ past)
      × (since + reap_after_ms ≤ r.now)
      × (All NoSession (r ∷ past) → since + max reap_after_ms boot_grace ≤ r.now)

  reap-Window :
      (d : Daemon) (past : List Round) (r : Round)
      → Tracks d past
      → (should_reap (step d r)).reap ≡ true
      → Window (r ∷ past)
  unfolding step
  reap-Window d past r t e =
      let p = (should_reap_iff (step d r)).0 e in
      let since : ℕ = or_else d.idle_since r.now in
      (
        since,
        idle_step d past r since t
            ((should_reap-idle_since (step d r) since).1 (p.0, p.1, p.2, refl)),
        ground arith,
        λ n. ground (arith, t.unseen n.1),
      )

  run-Window :
      (d : Daemon) (past rounds : List Round) (stopped : List Round)
      → Tracks d past
      → run resolve workspace socket reap_after_ms d past rounds ≡ some stopped
      → Window stopped
  unfolding run step
  run-Window d past [] stopped t e = cc
  run-Window d past (r ∷ rs) stopped t e = elim (Bool-cases (should_reap (step d r)).reap) [
    | inl stop ↦
        let same : (r ∷ past) ≡ stopped = ground arith in
        subst Window same (reap-Window d past r t stop)
    | inr go ↦
        run-Window (after resolve workspace socket reap_after_ms (should_reap (step d r)))
          (r ∷ past) rs stopped (step-Tracks d past r t) (ground arith)
  ]

  -- A daemon that stops itself has seen a window of consecutive rounds without an open session or
  -- an attached channel, at least `reapAfterMs` long, and at least as long as the boot grace too
  -- if no round of its life has seen a session.
  pub run_reaps_idle :
      (rounds : List Round) (stopped : List Round)
      → run resolve workspace socket reap_after_ms booted [] rounds ≡ some stopped
      → Window stopped
  run_reaps_idle rounds stopped =
      run-Window booted [] rounds stopped (record { idle = λ since e. cc; unseen = λ n. refl })

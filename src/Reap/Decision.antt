-- ===== src/Reap/Decision.antt =====
-- What one decision to reap depends on.
use agent_monitors.Prelude.{ℕ, ◌+◌, ◌≤◌, ◌<◌, ◌≡◌, ◌↔◌, true, false, some, arith, or_else}
use agent_monitors.Reap.{ShouldReapInput, should_reap, required_idle}

pub should_reap_iff :
    (s : ShouldReapInput)
    → ((should_reap s).reap ≡ true) ↔ (
        (0 < s.reap_after_ms)
        × (s.open_count ≡ 0)
        × (s.channel_attached ≡ false)
        × (or_else s.idle_since s.now + required_idle s ≤ s.now))
unfolding should_reap
should_reap_iff s = ground arith

-- The idle clock is kept exactly while the daemon is idle with reaping enabled: it keeps the
-- start it had, or starts now.
pub should_reap-idle_since :
    (s : ShouldReapInput) (since : ℕ)
    → ((should_reap s).next_idle_since ≡ some since) ↔ (
        (0 < s.reap_after_ms)
        × (s.open_count ≡ 0)
        × (s.channel_attached ≡ false)
        × (or_else s.idle_since s.now ≡ since))
unfolding should_reap
should_reap-idle_since s since = ground arith

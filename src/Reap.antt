-- ===== src/Reap.antt =====
-- apps/cli/src/reap-decision.ts: when an idle daemon stops itself. Times are milliseconds; a
-- negative `reapAfterMs`, which disables reaping as 0 does, is 0 here.
pub mod Heartbeat
pub mod Daemon
pub mod Decision
pub mod Window
pub mod Stopping
mod Tests
use agent_monitors.Prelude.{
  ℕ, ◌+◌, max, Bool, true, false, Option, none, some, leb, ltb, if◌then◌else◌, or_else,
}

pub record ShouldReapInput : Type 0 where
  pub open_count : ℕ
  pub channel_attached : Bool
  pub has_seen_session : Bool
  pub idle_since : Option ℕ
  pub now : ℕ
  pub reap_after_ms : ℕ
  pub boot_grace_ms : ℕ

pub record ShouldReapOutput : Type 0 where
  pub reap : Bool
  pub next_idle_since : Option ℕ
  pub next_has_seen_session : Bool

abbrev pub boot_grace : ℕ
boot_grace = 10_000

-- The required idle window: the larger one until a session has been seen.
abbrev pub required_idle : ShouldReapInput → ℕ
required_idle s =
    if s.has_seen_session then s.reap_after_ms else max s.reap_after_ms s.boot_grace_ms

-- The last return. `idleMs >= requiredIdleMs` is written without the difference, so that a clock
-- that went backwards counts as no idle time, as a negative `idleMs` does.
idle_decision : ShouldReapInput → ShouldReapOutput
idle_decision s =
    let since = or_else s.idle_since s.now in
    record {
      reap = leb (since + required_idle s) s.now;
      next_idle_since = some since;
      next_has_seen_session = s.has_seen_session;
    }

unfoldable pub should_reap : ShouldReapInput → ShouldReapOutput
unfolding idle_decision
should_reap s =
    if leb s.reap_after_ms 0
    then record { reap = false; next_idle_since = none; next_has_seen_session = s.has_seen_session }
    else if ltb 0 s.open_count
    then record { reap = false; next_idle_since = none; next_has_seen_session = true }
    else if s.channel_attached
    then record { reap = false; next_idle_since = none; next_has_seen_session = s.has_seen_session }
    else idle_decision s

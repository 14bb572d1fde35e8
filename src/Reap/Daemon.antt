-- ===== src/Reap/Daemon.antt =====
-- The reaping check of apps/cli/src/commands/daemon.ts, once for each round of the daemon's loop:
-- the state is `idleSince` and `hasSeenSession`, and the loop stops at the first decision to reap.
use agent_monitors.Prelude.{
  ℕ, Bool, false, ◌&&◌, ◌||◌, not, Option, none, some, List, [], ◌∷◌, Text, ltb, ◌==◌, any,
  if◌then◌else◌,
}
use agent_monitors.Reap.{ShouldReapInput, ShouldReapOutput, should_reap, boot_grace}
use agent_monitors.Reap.Heartbeat.{
  TransportHeartbeat, is_channel, is_heartbeat_stale, heartbeat_matches_binding,
}

-- What one round reads: the workspace's sessions and the heartbeat registry.
pub record Round : Type 0 where
  pub now : ℕ
  pub open_count : ℕ
  pub any_session : Bool
  pub read_failed : Bool
  pub records : List TransportHeartbeat

pub record Daemon : Type 0 where
  pub idle_since : Option ℕ
  pub has_seen_session : Bool

abbrev pub booted : Daemon
booted = record { idle_since = none; has_seen_session = false }

module _ (resolve : Text → Text) (workspace socket : Text) (reap_after_ms : ℕ) where
  pub holds_lease : ℕ → TransportHeartbeat → Bool
  holds_lease now h =
      is_channel h.transport
      && (heartbeat_matches_binding resolve h workspace socket && not (is_heartbeat_stale h now))

  -- The registry is read only where the answer can matter; a failed read counts as attached.
  unfoldable pub channel_attached : Round → Bool
  unfolding holds_lease
  channel_attached r =
      (ltb 0 reap_after_ms && r.open_count == 0)
      && (r.read_failed || any (holds_lease r.now) r.records)

  abbrev pub input : Daemon → Round → ShouldReapInput
  input d r = record {
    open_count = r.open_count;
    channel_attached = channel_attached r;
    has_seen_session = d.has_seen_session || r.any_session;
    idle_since = d.idle_since;
    now = r.now;
    reap_after_ms = reap_after_ms;
    boot_grace_ms = boot_grace;
  }

  abbrev pub after : ShouldReapOutput → Daemon
  after o = record { idle_since = o.next_idle_since; has_seen_session = o.next_has_seen_session }

  -- A round whose check throws changes nothing, and is not one of the rounds here.
  -- The rounds run so far, newest first, ending with the one that stops the daemon.
  unfoldable pub run : Daemon → List Round → List Round → Option (List Round)
  run d past [] = none
  run d past (r ∷ rs) =
      let rest = run (after (should_reap (input d r))) (r ∷ past) rs in
      if (should_reap (input d r)).reap then some (r ∷ past) else rest

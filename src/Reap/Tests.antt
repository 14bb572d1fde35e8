-- ===== src/Reap/Tests.antt =====
-- Runs of the reaping check, and the theorems at concrete inputs.
use agent_monitors.Prelude.{
  ℕ, ◌≡◌, ◌↔◌, refl, true, false, some, or_else, arith, inl, inr, is_some, List, [], ◌∷◌, Text,
  text_eq, ◌<◌,
}
use agent_monitors.Reap.{ShouldReapInput, should_reap}
use agent_monitors.Reap.Daemon.{Round, booted, run, channel_attached}
use agent_monitors.Reap.Heartbeat.{
  TransportHeartbeat, channel, is_heartbeat_stale, heartbeat_matches_binding,
}
use agent_monitors.Reap.Decision.{should_reap-idle_since}
use agent_monitors.Reap.Stopping.{run_stops}
use agent_monitors.Reap.Window.{Window, run_reaps_idle}

abbrev idle_input : ShouldReapInput
idle_input = record {
  open_count = 0;
  channel_attached = false;
  has_seen_session = false;
  idle_since = some 1_000;
  now = 9_000;
  reap_after_ms = 5_000;
  boot_grace_ms = 10_000;
}

in_boot_grace : (should_reap idle_input).reap ≡ false
unfolding should_reap
in_boot_grace = refl

abbrev idle_since_now : ℕ
idle_since_now = or_else idle_input.idle_since idle_input.now

abbrev quiet : ℕ → Round
quiet t = record { now = t; open_count = 0; any_session = false; read_failed = false; records = [] }

abbrev lease : TransportHeartbeat
lease = record {
  transport = channel;
  workspace_path = 119 ∷ [];
  socket_path = 115 ∷ [];
  updated_at = some 40_000;
  ttl_ms = 30_000;
}

abbrev leased : ℕ → Round
leased t = record {
  now = t;
  open_count = 0;
  any_session = false;
  read_failed = false;
  records = lease ∷ [];
}

abbrev same : Text → Text
same t = t

lease_counts : channel_attached same (119 ∷ []) (115 ∷ []) 5_000 (leased 60_000) ≡ true
unfolding channel_attached heartbeat_matches_binding is_heartbeat_stale text_eq
lease_counts = refl

abbrev rounds : List Round
rounds = quiet 1_000 ∷ leased 50_000 ∷ quiet 61_000 ∷ quiet 67_000 ∷ quiet 71_000 ∷ []

stops_at_71 :
    run same (119 ∷ []) (115 ∷ []) 5_000 booted [] rounds
    ≡ some (quiet 71_000 ∷ quiet 67_000 ∷ quiet 61_000 ∷ leased 50_000 ∷ quiet 1_000 ∷ [])
unfolding run should_reap channel_attached heartbeat_matches_binding is_heartbeat_stale text_eq
stops_at_71 = refl

none_leased : (t : ℕ) → channel_attached same (119 ∷ []) (115 ∷ []) 5_000 (quiet t) ≡ false
unfolding channel_attached
none_leased t = refl

run_stops_example :
    is_some (
      run same
        (119 ∷ [])
        (115 ∷ [])
        5_000
        booted
        []
        (quiet 61_000 ∷ quiet 67_000 ∷ quiet 71_000 ∷ []))
    ≡ true
run_stops_example =
    run_stops same (119 ∷ []) (115 ∷ []) 5_000 (omega arith) booted [] (quiet 61_000)
      (quiet 67_000 ∷ quiet 71_000 ∷ []) (quiet 71_000)
      ((refl, none_leased 61_000), ((refl, none_leased 67_000), ((refl, none_leased 71_000), tt)))
      (inr (inr (inl refl))) (omega arith)

should_reap-idle_since_example : ((should_reap idle_input).next_idle_since ≡ some 1_000) ↔ (
    (0 < 5_000)
    × (idle_input.open_count ≡ 0)
    × (idle_input.channel_attached ≡ false)
    × (idle_since_now ≡ 1_000))
should_reap-idle_since_example = should_reap-idle_since idle_input 1_000

run_reaps_idle_example :
    Window same
      (119 ∷ [])
      (115 ∷ [])
      5_000
      (quiet 71_000 ∷ quiet 67_000 ∷ quiet 61_000 ∷ leased 50_000 ∷ quiet 1_000 ∷ [])
run_reaps_idle_example = run_reaps_idle same (119 ∷ []) (115 ∷ []) 5_000 rounds _ stops_at_71

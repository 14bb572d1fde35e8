-- ===== src/Reap/Heartbeat.antt =====
-- apps/cli/src/transport-heartbeat.ts: which recorded transports are live and belong to a daemon.
-- `Date.parse` is read as done: an unparseable `updatedAt` is `none`. `path.resolve` is a parameter.
use agent_monitors.Prelude.{
  ℕ, ◌+◌, Bool, true, ◌&&◌, Option, none, some, Text, text_eq, ltb, if◌then◌else◌,
}

pub data Transport : Type 0 where
  channel hook : Transport

pub record TransportHeartbeat : Type 0 where
  pub transport : Transport
  pub workspace_path : Text
  pub socket_path : Text
  pub updated_at : Option ℕ
  pub ttl_ms : ℕ

abbrev pub heartbeat_future_tolerance_ms : ℕ
heartbeat_future_tolerance_ms = 5_000

-- `age < -tolerance` and `age > ttl` for `age = now - updatedAt`, which may be negative.
stale_at : ℕ → ℕ → ℕ → Bool
stale_at updated ttl now =
    if ltb (now + heartbeat_future_tolerance_ms) updated then true else ltb (updated + ttl) now

unfoldable pub is_heartbeat_stale : TransportHeartbeat → ℕ → Bool
unfolding stale_at
is_heartbeat_stale h now = elim h.updated_at [ none ↦ true | some t ↦ stale_at t h.ttl_ms now ]

abbrev pub is_channel : Transport → Bool
is_channel Transport.channel = true
is_channel Transport.hook = Bool.false

module _ (resolve : Text → Text) where
  unfoldable pub heartbeat_matches_binding : TransportHeartbeat → Text → Text → Bool
  heartbeat_matches_binding h workspace socket =
      text_eq (resolve h.workspace_path) (resolve workspace)
      && text_eq (resolve h.socket_path) (resolve socket)

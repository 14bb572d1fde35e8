-- ===== src/Retraction.antt =====
-- libs/core/src/runtime/service.ts: `retractObjectEvents`, `suppressObjectEvents` with its guard,
-- and `applyObjectSuppressions`, which ends every tick. Times are milliseconds; the store cuts those of
-- a tombstone to whole seconds.
pub mod Sweep
mod Tests
use agent_monitors.Prelude.{
  ℕ, ◌+◌, Bool, true, false, ◌&&◌, ◌||◌, not, Option, none, some, List, [], ◌∷◌, ◌++◌, Text, codes,
  length, all, leb, ◌==◌, if◌then◌else◌, take, drop, text_eq,
}
use agent_monitors.Store.{Store, ObjectSuppression}
use agent_monitors.Store.Retract.{
  WorkspaceScope, any_scope, global_scope, workspace_scope, Retraction, retract_object_events,
  retract_object_events_by_key, upsert_object_suppression, active_object_suppressions,
  purge_expired_object_suppressions,
}
use agent_monitors.Delivery.Ops.{Runtime, with_store, refresh_hook_state}

-- `/[\\/]/`
abbrev is_separator : ℕ → Bool
is_separator c = c == b'/' || c == 92

-- The last part of a split at separators.
unfoldable pub last_segment : Text → Text → Text
last_segment part [] = part
last_segment part (c ∷ cs) = last_segment (if is_separator c then [] else part ++ c ∷ []) cs

abbrev scratch_prefix : Text
scratch_prefix = codes "agentmonitors-verify-"

-- `[0-9a-f]`
abbrev is_hex : ℕ → Bool
is_hex c = leb b'0' c && leb c b'9' || leb b'a' c && leb c b'f'

-- `.`: any code unit but a line terminator.
abbrev is_dot : ℕ → Bool
is_dot c = not ((c == 10 || c == 13) || (c == 8232 || c == 8233))

-- `(\..*)?$`
abbrev pub is_extension : Text → Bool
is_extension [] = true
is_extension (c ∷ cs) = c == b'.' && all is_dot cs

-- The prefix, twelve hexadecimal digits and an extension.
unfoldable pub is_scratch_name : Text → Bool
is_scratch_name name =
    let rest = drop (length scratch_prefix) name in
    text_eq (take (length scratch_prefix) name) scratch_prefix
    && (length (take 12 rest) == 12 && (all is_hex (take 12 rest) && is_extension (drop 12 rest)))

unfoldable pub is_verify_scratch_object_key : Text → Bool
unfolding last_segment is_scratch_name
is_verify_scratch_object_key key = is_scratch_name (last_segment [] key)

unfoldable pub refresh_all : ℕ → List Text → Runtime → Runtime
refresh_all now [] rt = rt
refresh_all now (session ∷ rest) rt = refresh_all now rest (refresh_hook_state now session rt)

-- What a retraction of the store leaves to do: the refresh of the affected sessions.
abbrev pub apply_retraction : ℕ → Retraction → Runtime → ℕ × Runtime
apply_retraction now r rt = (
  length r.removed_event_ids,
  refresh_all now r.affected_session_ids (with_store (λ s. r.store) rt),
)

unfoldable pub retract_events : ℕ → WorkspaceScope → Text → Text → List Text → Runtime → ℕ × Runtime
unfolding refresh_all
retract_events now scope monitor key ids rt =
    apply_retraction now (retract_object_events scope monitor key ids rt.view.store) rt

-- The scope of a tombstone's sweep.
abbrev pub tombstone_scope : Option Text → WorkspaceScope
tombstone_scope none = global_scope
tombstone_scope (some w) = workspace_scope w

-- The tombstone that `suppress_object_events` asks for, before the store cuts its times.
abbrev pub tombstone : ℕ → Option Text → Text → Text → ℕ → ObjectSuppression
tombstone now workspace monitor key ttl = record {
  monitor_id = monitor;
  object_key = key;
  workspace_path = workspace;
  created_at = now;
  expires_at = now + ttl;
}

-- `none` is the throw at an object key that is not a scratch file's.
unfoldable pub suppress_object_events :
    ℕ → Option Text → Text → Text → ℕ → Runtime → Option (ℕ × Runtime)
unfolding refresh_all is_verify_scratch_object_key
suppress_object_events now workspace monitor key ttl rt =
    if not (is_verify_scratch_object_key key)
    then none
    else let kept =
        with_store (upsert_object_suppression (tombstone now workspace monitor key ttl)) rt in
      some (
        apply_retraction now
          (retract_object_events_by_key (tombstone_scope workspace) monitor key kept.view.store)
          kept)

-- The retraction of one active tombstone.
unfoldable pub sweep : ℕ → ObjectSuppression → Runtime → Runtime
unfolding refresh_all
sweep now x rt =
    (apply_retraction now
      (retract_object_events_by_key (tombstone_scope x.workspace_path) x.monitor_id x.object_key
        rt.view.store)
      rt).1

unfoldable pub sweep_all : ℕ → List ObjectSuppression → Runtime → Runtime
unfolding sweep
sweep_all now [] rt = rt
sweep_all now (x ∷ xs) rt = sweep_all now xs (sweep now x rt)

unfoldable pub apply_object_suppressions : ℕ → Text → Runtime → Runtime
unfolding sweep_all
apply_object_suppressions now workspace rt =
    with_store (purge_expired_object_suppressions now)
      (sweep_all now (active_object_suppressions (some workspace) now rt.view.store) rt)

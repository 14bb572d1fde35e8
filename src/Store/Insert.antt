-- ===== src/Store/Insert.antt =====
-- libs/core/src/runtime/store.ts, `insertEvent`: an event, its projections to sessions, the
-- cursors that they seed and the snapshot, in one transaction. `none` is a transaction that
-- throws and is rolled back: an id that is there, or a snapshot without an object key. The
-- event's id is what `eventUlid()` gives.
use agent_monitors.Prelude.{
  ℕ, Bool, false, ◌&&◌, ◌||◌, Option, none, some, List, [], ◌∷◌, ◌++◌, map, Text, text_eq, includes,
  keep, if◌then◌else◌, or_else, is_none, is_some,
}
use agent_monitors.Event.{MonitorEvent}
use agent_monitors.Store.{
  Store, EventState, SessionCursor, AgentSession, EphemeralMonitor, MonitorSnapshot,
  InterpretDecision, update_states, get_session_object_cursor,
}
use agent_monitors.Store.Sessions.{
  is_lead, is_active_status, sessions_for_workspace, find_ephemeral_monitor_by_id,
}

-- Insert-only: an existing cursor stays.
unfoldable pub seed_session_object_cursor : ℕ → SessionCursor → Store → Store
seed_session_object_cursor now c s =
    elim (get_session_object_cursor c.session_id c.monitor_id c.object_key c.workspace_path s) [
      | some found ↦ s
      | none ↦ record s { cursors = s.cursors ++ record c { updated_at = now } ∷ [] }
    ]

unfoldable pub save_snapshot : ℕ → MonitorSnapshot → Store → Store
save_snapshot now m s = record s { snapshots = s.snapshots ++ record m { created_at = now } ∷ [] }

abbrev pub is_active_watch : Option EphemeralMonitor → Bool
is_active_watch none = false
is_active_watch (some m) = m.is_active

-- A persistent monitor's event, or one of a watch that has not been reaped meanwhile.
abbrev pub ephemeral_still_active : MonitorEvent → Option Text → Store → Bool
ephemeral_still_active e restrict_to s =
    is_none restrict_to || is_active_watch (find_ephemeral_monitor_by_id e.monitor_id s)

abbrev pub is_target : Option Text → AgentSession → Bool
is_target none a = is_lead a.role
is_target (some only) a = is_lead a.role && (text_eq a.id only && is_active_status a.status)

unfoldable pub projection_targets : MonitorEvent → Option Text → Store → List AgentSession
projection_targets e restrict_to s =
    if ephemeral_still_active e restrict_to s
    then keep (is_target restrict_to) (sessions_for_workspace e.workspace_path s)
    else []

abbrev pub projected : Text → MonitorEvent → Option Text → EventState
projected session e diff = record {
  session_id = session;
  event_id = e.id;
  first_notified_at = none;
  last_claim_at = none;
  last_claim_lifecycle = none;
  acknowledged_at = none;
  interpret_decision = none;
  interpret_digest = none;
  net_suppressed_at = none;
  diff_text = diff;
  updated_at = e.created_at;
}

abbrev pub add_state : EventState → Store → Store
add_state r s = record s { states = s.states ++ r ∷ [] }

-- The baseline of a first projection: the content before the event, or its own artifact.
abbrev pub seeded : Text → MonitorEvent → Text → Text → Option Text → SessionCursor
seeded session e artifact key previous = record {
  session_id = session;
  monitor_id = e.monitor_id;
  object_key = key;
  workspace_path = e.workspace_path;
  baseline_snapshot_id = if is_some previous then none else some e.id;
  baseline_content = or_else previous artifact;
  updated_at = 0;
}

-- The snapshot of an event with an artifact.
abbrev pub snapshot_event : ℕ → MonitorEvent → Option Text → Option Text → Store → Option Store
snapshot_event now e none key s = some s
snapshot_event now e (some artifact) none s = none
snapshot_event now e (some artifact) (some key) s = some (
    save_snapshot now
      record {
        workspace_path = e.workspace_path;
        monitor_id = e.monitor_id;
        object_key = key;
        event_id = e.id;
        content = artifact;
        created_at = 0;
      }
      s)

module _ (build_diff : Text → Text → Option Text → Text) where
  -- The delta of a first projection: from the content before the event, if there was any.
  abbrev pub first_diff : Option Text → Text → Option Text → Option Text
  first_diff none artifact strategy = none
  first_diff (some previous) artifact strategy = some (build_diff previous artifact strategy)

  -- An existing recipient spans from its own cursor; another is seeded.
  unfoldable pub diff_for_recipient :
      ℕ
      → Text
      → MonitorEvent
      → Text
      → Text
      → Option Text
      → Option SessionCursor
      → Store
      → Option Text × Store
  unfolding seed_session_object_cursor
  diff_for_recipient now session e artifact key previous (some c) s =
      (some (build_diff c.baseline_content artifact e.snapshot_strategy), s)
  diff_for_recipient now session e artifact key previous none s = (
    first_diff previous artifact e.snapshot_strategy,
    seed_session_object_cursor now (seeded session e artifact key previous) s,
  )

  -- Only an event with a snapshot and an object key has a delta.
  unfoldable pub per_recipient_diff :
      ℕ
      → Text
      → MonitorEvent
      → Option Text
      → Option Text
      → Option Text
      → Store
      → Option Text × Store
  unfolding diff_for_recipient
  per_recipient_diff now session e (some artifact) (some key) previous s =
      diff_for_recipient now session e artifact key previous
        (get_session_object_cursor session e.monitor_id key e.workspace_path s) s
  per_recipient_diff now session e _ _ previous s = (none, s)

  unfoldable pub project_to : ℕ → MonitorEvent → Option Text → Text → Store → Store
  unfolding per_recipient_diff
  project_to now e previous session s =
      let delta = per_recipient_diff now session e e.snapshot_text e.object_key previous s in
      add_state (projected session e delta.0) delta.1

  unfoldable pub project_all : ℕ → MonitorEvent → Option Text → List AgentSession → Store → Store
  unfolding project_to
  project_all now e previous [] s = s
  project_all now e previous (a ∷ rest) s =
      project_all now e previous rest (project_to now e previous a.id s)

  -- The store after the insert, and the sessions projected to.
  unfoldable pub insert_event :
      ℕ → MonitorEvent → Option Text → Option Text → Store → Option Store × List Text
  unfolding projection_targets project_all save_snapshot
  insert_event now e previous restrict_to s =
      if includes (map (λ (f : MonitorEvent). f.id) s.events) e.id
      then (none, [])
      else let inserted : Store = record s { events = s.events ++ e ∷ [] } in
        let targets = projection_targets e restrict_to inserted in
        (
          snapshot_event now e e.snapshot_text e.object_key
              (project_all now e previous targets inserted),
          map (λ (a : AgentSession). a.id) targets,
        )

unfoldable pub record_interpret_decision :
    ℕ → Text → Text → InterpretDecision → Option Text → Store → Store
record_interpret_decision now session event decision digest s =
    update_states session (event ∷ [])
      (λ r. record r {
        interpret_decision = some decision;
        interpret_digest = digest;
        updated_at = now;
      })
      s

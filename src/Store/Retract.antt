-- ===== src/Store/Retract.antt =====
-- libs/core/src/runtime/store.ts: the retraction of a monitor's events with every trace of them,
-- by id or by object key, and the tombstones that retract what comes later.
use agent_monitors.Prelude.{
  ℕ, ◌/◌, ◌*◌, Bool, true, ◌&&◌, ◌||◌, not, Option, none, some, List, [], ◌∷◌, ◌++◌, map, Text,
  text_eq, option_text_eq, includes, keep, leb, ltb, if◌then◌else◌, is_none,
}
use agent_monitors.Event.{MonitorEvent, is_empty}
use agent_monitors.Store.{Store, EventState, SessionCursor, ObjectSuppression}
use agent_monitors.Store.Sessions.{in_workspace}

-- A scope that is not given, one of no workspace, or a workspace.
pub data WorkspaceScope : Type 0 where
  any_scope : WorkspaceScope
  global_scope : WorkspaceScope
  workspace_scope : Text → WorkspaceScope

-- `new Set(…)` of ids, in the order of their first occurrence.
unfoldable pub dedupe : List Text → List Text
dedupe [] = []
dedupe (k ∷ ks) = k ∷ keep (λ j. not (text_eq j k)) (dedupe ks)

-- The scope of a retraction by key: exactly the workspace.
abbrev pub event_in_scope : WorkspaceScope → Option Text → Bool
event_in_scope any_scope path = true
event_in_scope global_scope path = is_none path
event_in_scope (workspace_scope w) path = option_text_eq path (some w)

-- The scope of a cursor: the workspace or none.
abbrev pub cursor_in_scope : WorkspaceScope → Option Text → Bool
cursor_in_scope any_scope path = true
cursor_in_scope global_scope path = is_none path
cursor_in_scope (workspace_scope w) path = option_text_eq path (some w) || is_none path

abbrev pub is_retracted_cursor : WorkspaceScope → Text → Text → List Text → SessionCursor → Bool
is_retracted_cursor scope monitor key sessions c =
    (text_eq c.monitor_id monitor && text_eq c.object_key key)
    && (includes sessions c.session_id && cursor_in_scope scope c.workspace_path)

pub record Retraction : Type 0 where
  pub removed_event_ids : List Text
  pub affected_session_ids : List Text
  pub store : Store

unfoldable pub affected_sessions : List Text → List EventState → List Text
unfolding dedupe
affected_sessions ids rows =
    dedupe (map (λ (r : EventState). r.session_id) (keep (λ r. includes ids r.event_id) rows))

-- The cascade over the rows of the resolved ids. An empty list of affected sessions deletes no
-- cursor.
unfoldable pub delete_resolved_object_events :
    WorkspaceScope → Text → Text → List Text → Store → Retraction
unfolding affected_sessions
delete_resolved_object_events scope monitor key ids s =
    if is_empty ids
    then record { removed_event_ids = ids; affected_session_ids = []; store = s }
    else let affected = affected_sessions ids s.states in
      record {
        removed_event_ids = ids;
        affected_session_ids = affected;
        store = record s {
          states = keep (λ r. not (includes ids r.event_id)) s.states;
          snapshots = keep (λ m. not (includes ids m.event_id)) s.snapshots;
          events = keep (λ e. not (includes ids e.id)) s.events;
          cursors = keep (λ c. not (is_retracted_cursor scope monitor key affected c)) s.cursors;
        };
      }

-- Only ids of rows that exist and belong to the monitor.
abbrev pub resolved_ids : Text → List Text → Store → List Text
resolved_ids monitor ids s =
    map (λ (e : MonitorEvent). e.id)
      (keep (λ e. text_eq e.monitor_id monitor && includes ids e.id) s.events)

unfoldable pub retract_object_events : WorkspaceScope → Text → Text → List Text → Store → Retraction
unfolding delete_resolved_object_events
retract_object_events scope monitor key ids s =
    if is_empty ids
    then record { removed_event_ids = []; affected_session_ids = []; store = s }
    else delete_resolved_object_events scope monitor key (resolved_ids monitor ids s) s

abbrev pub is_event_of_object : WorkspaceScope → Text → Text → MonitorEvent → Bool
is_event_of_object scope monitor key e =
    (text_eq e.monitor_id monitor && option_text_eq e.object_key (some key))
    && event_in_scope scope e.workspace_path

unfoldable pub retract_object_events_by_key : WorkspaceScope → Text → Text → Store → Retraction
unfolding delete_resolved_object_events
retract_object_events_by_key scope monitor key s =
    delete_resolved_object_events scope monitor key
      (map (λ (e : MonitorEvent). e.id) (keep (is_event_of_object scope monitor key) s.events)) s

abbrev pub is_suppression_of : Text → Text → Option Text → ObjectSuppression → Bool
is_suppression_of monitor key workspace x =
    (text_eq x.monitor_id monitor && text_eq x.object_key key)
    && option_text_eq x.workspace_path workspace

-- A time in a `timestamp` column, which keeps whole seconds; the bound of a query is cut the same.
abbrev pub whole_seconds : ℕ → ℕ
whole_seconds ms = ms / 1_000 * 1_000

abbrev pub suppression_row : ObjectSuppression → ObjectSuppression
suppression_row x = record x {
  created_at = whole_seconds x.created_at;
  expires_at = whole_seconds x.expires_at;
}

-- A delete and an insert: one tombstone for each monitor, key and workspace.
unfoldable pub upsert_object_suppression : ObjectSuppression → Store → Store
upsert_object_suppression x s = record s {
  suppressions =
      keep (λ y. not (is_suppression_of x.monitor_id x.object_key x.workspace_path y))
        s.suppressions
      ++ suppression_row x ∷ [];
}

-- Without a workspace every tombstone; with one, its own and those of no workspace.
abbrev pub suppression_in_scope : Option Text → ObjectSuppression → Bool
suppression_in_scope none x = true
suppression_in_scope (some w) x = in_workspace (some w) x.workspace_path

unfoldable pub active_object_suppressions : Option Text → ℕ → Store → List ObjectSuppression
active_object_suppressions workspace now s =
    keep (λ x. ltb (whole_seconds now) x.expires_at && suppression_in_scope workspace x)
      s.suppressions

unfoldable pub purge_expired_object_suppressions : ℕ → Store → Store
purge_expired_object_suppressions now s = record s {
  suppressions = keep (λ x. not (leb x.expires_at (whole_seconds now))) s.suppressions;
}

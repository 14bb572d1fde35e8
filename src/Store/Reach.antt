-- ===== src/Store/Reach.antt =====
-- The calls of the store as steps, and what holds of every store that they reach.
use agent_monitors.Prelude.{ℕ, ◌≡◌, false, Option, some, List, [], Text, text_eq, any, AreDistinct}
use agent_monitors.Event.{Urgency, MonitorEvent}
use agent_monitors.Store.{
  Store, InterpretDecision, ObjectSuppression, EphemeralMonitor, DeliveryLifecycle,
  acknowledge_events, touch_session, update_session_recap, unread_events_for_session,
}
use agent_monitors.Store.Sessions.{
  OpenSessionInput, open_session, close_session, insert_ephemeral_monitor, reap_ephemeral_monitor,
  reap_ephemeral_monitors_for_session,
}
use agent_monitors.Store.Insert.{insert_event, record_interpret_decision}
use agent_monitors.Store.Claims.{collapse_net_for_claim, mark_claimed}
use agent_monitors.Store.Retract.{
  WorkspaceScope, retract_object_events, retract_object_events_by_key, upsert_object_suppression,
  purge_expired_object_suppressions,
}
use agent_monitors.Store.Consistent.{IsConsistent, same_event, OnCommit_some}
use agent_monitors.Store.Kept.{
  acknowledge-IsConsistent, decision-IsConsistent, touch-IsConsistent, recap-IsConsistent,
  close-IsConsistent, open-IsConsistent, retract-IsConsistent, retract_key-IsConsistent,
  suppression-IsConsistent, purge-IsConsistent, reap-IsConsistent, reap_session-IsConsistent,
  declare-IsConsistent,
}
use agent_monitors.Store.KeptClaims.{claimed-IsConsistent, collapse-IsConsistent}
use agent_monitors.Store.Inserted.{insert-IsConsistent}
use agent_monitors.Store.Once.{unread-AreDistinct}

-- The stores that the calls reach from empty tables. A session is opened with a fresh id, which
-- `ulid()` gives; an insert that throws changes nothing.
module _ (build_diff : Text → Text → Option Text → Text) where
  pub data Stored : Store → Type 0 where
    at_start : Stored record {
      sessions = [];
      events = [];
      states = [];
      cursors = [];
      snapshots = [];
      suppressions = [];
      ephemerals = [];
    }
    session_opened :
        {s : Store}
        → (now : ℕ) (id : Text) (input : OpenSessionInput)
        → any (λ a. text_eq a.id id) s.sessions ≡ false
        → Stored s
        → Stored (open_session now id input s)
    session_closed :
        {s : Store} → (now : ℕ) (id : Text) → Stored s → Stored (close_session now id s)
    session_touched :
        {s : Store} → (now : ℕ) (id : Text) → Stored s → Stored (touch_session now id s)
    recap_shown :
        {s : Store} → (now : ℕ) (id : Text) → Stored s → Stored (update_session_recap now id s)
    event_inserted :
        {s t : Store}
        → (now : ℕ) (e : MonitorEvent) (previous only : Option Text)
        → (insert_event build_diff now e previous only s).0 ≡ some t
        → Stored s
        → Stored t
    decision_recorded :
        {s : Store}
        → (now : ℕ) (session event : Text) (d : InterpretDecision) (digest : Option Text) → Stored s
        → Stored (record_interpret_decision now session event d digest s)
    events_acknowledged :
        {s : Store}
        → (now : ℕ) (session : Text) (ids : List Text) → Stored s
        → Stored (acknowledge_events now session ids s)
    collapsed :
        {s : Store}
        → (now : ℕ) (session : Text) (candidates : List MonitorEvent) → Stored s
        → Stored (collapse_net_for_claim build_diff now session candidates s)
    claimed :
        {s : Store}
        → (now : ℕ) (session : Text) (ids : List Text) (lifecycle : DeliveryLifecycle) → Stored s
        → Stored (mark_claimed now session ids lifecycle s)
    retracted :
        {s : Store}
        → (scope : WorkspaceScope) (monitor key : Text) (ids : List Text) → Stored s
        → Stored (retract_object_events scope monitor key ids s).store
    retracted_by_key :
        {s : Store}
        → (scope : WorkspaceScope) (monitor key : Text) → Stored s
        → Stored (retract_object_events_by_key scope monitor key s).store
    suppression_set :
        {s : Store} → (x : ObjectSuppression) → Stored s → Stored (upsert_object_suppression x s)
    watch_declared :
        {s t : Store}
        → (m : EphemeralMonitor) (now : ℕ) → insert_ephemeral_monitor m now s ≡ some t
        → Stored s
        → Stored t
    watch_reaped :
        {s : Store} → (now : ℕ) (id : Text) → Stored s → Stored (reap_ephemeral_monitor now id s)
    session_reaped :
        {s : Store}
        → (now : ℕ) (session : Text) → Stored s
        → Stored (reap_ephemeral_monitors_for_session now session s).1
    suppressions_purged :
        {s : Store} → (now : ℕ) → Stored s → Stored (purge_expired_object_suppressions now s)

  -- In every store that the calls reach, the ids of events, sessions and watches are unique, an adapter's
  -- host session has one row, an event is projected to a session at most once, a session has one
  -- cursor for an object and an object one tombstone of a workspace, and every projection and
  -- snapshot belongs to an event that is there.
  pub Stored-IsConsistent : {s : Store} → Stored s → IsConsistent s
  Stored-IsConsistent at_start = record {
    unique_events = tt;
    unique_states = tt;
    unique_cursors = tt;
    unique_sessions = tt;
    unique_hosts = tt;
    unique_tombstones = tt;
    unique_watches = tt;
    known_states = tt;
    known_snapshots = tt;
  }
  Stored-IsConsistent (session_opened now id input fresh r) =
      open-IsConsistent _ (Stored-IsConsistent r) now id input fresh
  Stored-IsConsistent (session_closed now id r) =
      close-IsConsistent _ (Stored-IsConsistent r) now id
  Stored-IsConsistent (session_touched now id r) =
      touch-IsConsistent _ (Stored-IsConsistent r) now id
  Stored-IsConsistent (recap_shown now id r) = recap-IsConsistent _ (Stored-IsConsistent r) now id
  Stored-IsConsistent (event_inserted now e previous only done r) =
      OnCommit_some IsConsistent _ _
        (insert-IsConsistent build_diff now e previous only _ (Stored-IsConsistent r)) done
  Stored-IsConsistent (decision_recorded now session event d digest r) =
      decision-IsConsistent _ (Stored-IsConsistent r) now session event d digest
  Stored-IsConsistent (events_acknowledged now session ids r) =
      acknowledge-IsConsistent _ (Stored-IsConsistent r) now session ids
  Stored-IsConsistent (collapsed now session candidates r) =
      collapse-IsConsistent build_diff now session candidates _ (Stored-IsConsistent r)
  Stored-IsConsistent (claimed now session ids lifecycle r) =
      claimed-IsConsistent now session ids lifecycle _ (Stored-IsConsistent r)
  Stored-IsConsistent (retracted scope monitor key ids r) =
      retract-IsConsistent _ (Stored-IsConsistent r) scope monitor key ids
  Stored-IsConsistent (retracted_by_key scope monitor key r) =
      retract_key-IsConsistent _ (Stored-IsConsistent r) scope monitor key
  Stored-IsConsistent (suppression_set x r) = suppression-IsConsistent _ (Stored-IsConsistent r) x
  Stored-IsConsistent (watch_declared m now done r) =
      OnCommit_some IsConsistent _ _ (declare-IsConsistent _ (Stored-IsConsistent r) m now) done
  Stored-IsConsistent (watch_reaped now id r) = reap-IsConsistent _ (Stored-IsConsistent r) now id
  Stored-IsConsistent (session_reaped now session r) =
      reap_session-IsConsistent _ (Stored-IsConsistent r) now session
  Stored-IsConsistent (suppressions_purged now r) = purge-IsConsistent _ (Stored-IsConsistent r) now

  -- In every store that the calls reach, the unread events of a session, of one urgency or of all,
  -- list no event id twice.
  pub unread_once :
      {s : Store} (session : Text) (urgency : Option Urgency)
      → Stored s
      → AreDistinct same_event (unread_events_for_session session urgency s)
  unread_once {s} session urgency r = unread-AreDistinct session urgency s (Stored-IsConsistent r)

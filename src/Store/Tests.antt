-- ===== src/Store/Tests.antt =====
-- A store with two sessions, an event of a persistent monitor and one of a watch, and the theorems
-- of the store at it.
use agent_monitors.Prelude.{
  ◌≡◌, ◌≢◌, sym, true-false, text_eq_iff, ◌↔◌, ◌⊎◌, refl, inl, true, Option, none, some, [], ◌∷◌,
  ◌++◌, Text, includes, In, or_else, AreDistinct, text_eq, option_text_eq,
}
use agent_monitors.Event.{high, incremental, MonitorEvent}
use agent_monitors.Store.{
  Store, EphemeralMonitor, matches_urgency, unread_events_for_session, pending_events_for_session,
  get_session_object_cursor,
}
use agent_monitors.Store.Sessions.{
  OpenSessionInput, open_session, insert_ephemeral_monitor, insert_by, order_by,
  sessions_for_workspace, find_ephemeral_monitor_by_id,
}
use agent_monitors.Store.Insert.{insert_event}
use agent_monitors.Store.Consistent.{IsConsistent, same_event}
use agent_monitors.Store.Reach.{
  Stored, at_start, session_opened, event_inserted, watch_declared, Stored-IsConsistent,
  unread_once,
}
use agent_monitors.Store.Isolation.{insert_reaches, insert_isolates}

abbrev s1 : Text
s1 = 115 ∷ []

abbrev s2 : Text
s2 = 116 ∷ []

-- A stand-in for `buildDiff`.
abbrev pub diff : Text → Text → Option Text → Text
diff a b name = a ++ b

abbrev empty : Store
empty = record {
  sessions = [];
  events = [];
  states = [];
  cursors = [];
  snapshots = [];
  suppressions = [];
  ephemerals = [];
}

abbrev session : Text → OpenSessionInput
session host = record {
  adapter = [];
  host_session_id = host;
  workspace_path = none;
  role = none;
  agent_identity = [];
  hook_state_path = [];
}

abbrev watch : EphemeralMonitor
watch = record {
  id = 119 ∷ [];
  session_id = s1;
  workspace_path = none;
  urgency = high;
  urgency_max = high;
  is_active = true;
  created_at = 0;
  updated_at = 0;
  reaped_at = none;
}

abbrev event_of_monitor : Text → Text → MonitorEvent
event_of_monitor monitor id = record {
  id = id;
  workspace_path = none;
  monitor_id = monitor;
  urgency = high;
  title = id;
  body = [];
  summary = [];
  snapshot_text = some (49 ∷ []);
  snapshot_strategy = none;
  diff_text = none;
  object_key = some (107 ∷ []);
  baseline_strategy = incremental;
  created_at = 9;
}

abbrev pub monitor : Text
monitor = 109 ∷ []

abbrev pub shared : MonitorEvent
shared = event_of_monitor monitor (97 ∷ [])

abbrev own : MonitorEvent
own = event_of_monitor watch.id (98 ∷ [])

abbrev one_session : Store
one_session = open_session 1 s1 (session s1) empty

abbrev two_sessions : Store
two_sessions = open_session 2 s2 (session s2) one_session

-- After the event of the monitor, which goes to both sessions.
abbrev pub notified : Store
notified = or_else (insert_event diff 10 shared none none two_sessions).0 empty

abbrev watched : Store
watched = or_else (insert_ephemeral_monitor watch 11 notified) empty

-- After the event of the watch, which goes to the first.
abbrev isolated : Store
isolated = or_else (insert_event diff 12 own none (some s1) watched).0 empty

fresh_one : Stored diff one_session
fresh_one = session_opened 1 s1 (session s1) refl at_start

fresh_two : Stored diff two_sessions
unfolding text_eq open_session
fresh_two = session_opened 2 s2 (session s2) refl fresh_one

inserted : (insert_event diff 10 shared none none two_sessions).0 ≡ some notified
unfolding text_eq open_session insert_event insert_by order_by sessions_for_workspace
    get_session_object_cursor option_text_eq
inserted = refl

pub notified-Stored : Stored diff notified
notified-Stored = event_inserted 10 shared none none inserted fresh_two

declared : insert_ephemeral_monitor watch 11 notified ≡ some watched
unfolding text_eq open_session insert_event insert_ephemeral_monitor insert_by order_by
    sessions_for_workspace get_session_object_cursor option_text_eq
declared = refl

watched-Stored : Stored diff watched
watched-Stored = watch_declared watch 11 declared notified-Stored

inserted_own : (insert_event diff 12 own none (some s1) watched).0 ≡ some isolated
unfolding text_eq open_session insert_event insert_ephemeral_monitor insert_by order_by
    sessions_for_workspace get_session_object_cursor option_text_eq find_ephemeral_monitor_by_id
inserted_own = refl

Stored-IsConsistent_example : IsConsistent isolated
Stored-IsConsistent_example =
    Stored-IsConsistent diff (event_inserted 12 own none (some s1) inserted_own watched-Stored)

unread_once_example : AreDistinct same_event (unread_events_for_session s1 none isolated)
unread_once_example =
    unread_once diff s1 none (event_inserted 12 own none (some s1) inserted_own watched-Stored)

insert_reaches_example :
    (In shared (unread_events_for_session s2 (some high) notified) ↔ (
      In shared (unread_events_for_session s2 (some high) two_sessions)
      ⊎ (shared ≡ shared)
        × (includes (insert_event diff 10 shared none none two_sessions).1 s2 ≡ true)
        × (matches_urgency (some high) shared ≡ true)))
    × (In shared (pending_events_for_session s2 (some high) notified) ↔ (
        In shared (pending_events_for_session s2 (some high) two_sessions)
        ⊎ (shared ≡ shared)
          × (includes (insert_event diff 10 shared none none two_sessions).1 s2 ≡ true)
          × (matches_urgency (some high) shared ≡ true)))
insert_reaches_example =
    insert_reaches diff 10 shared none none two_sessions notified fresh_two inserted s2 (some high)
      shared

other_session : s2 ≢ s1
unfolding text_eq
other_session e = true-false (sym ((text_eq_iff s2 s1).1 e))

insert_isolates_example :
    (In own (unread_events_for_session s2 none isolated)
      ↔ In own (unread_events_for_session s2 none watched))
    × (In own (pending_events_for_session s2 none isolated)
        ↔ In own (pending_events_for_session s2 none watched))
insert_isolates_example =
    insert_isolates diff 12 own none s1 watched isolated watched-Stored inserted_own s2 none own
      (inl other_session)

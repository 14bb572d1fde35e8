-- ===== src/Store.antt =====
-- The part of libs/core/src/runtime/store.ts that delivery uses. A table is the list of its rows,
-- in the order of insertion; a WHERE condition is a test on a row. `buildDiff` is a parameter of
-- the operations that render a delta.
pub mod Claims
pub mod Rows
pub mod Change
pub mod Claimed
pub mod Sessions
pub mod Insert
pub mod Retract
pub mod Consistent
pub mod Parts
pub mod Kept
pub mod KeptClaims
pub mod Targets
pub mod Projected
pub mod Inserted
pub mod Members
pub mod Once
pub mod Reach
pub mod Projecting
pub mod Isolation
pub mod Retracted
pub mod Tests
use agent_monitors.Prelude.{
  ℕ, ◌+◌, Bool, true, false, ◌&&◌, not, Option, none, some, List, [], ◌∷◌, ◌++◌, map, Text, text_eq,
  option_text_eq, includes, keep, length, get, put, ltb, ◌==◌, if◌then◌else◌, or_else, is_none,
}
use agent_monitors.Event.{
  Urgency, low, normal, high, urgency_eq, MonitorEvent, NetCollapseView, collapsible, event_leb,
  sort_events, net_collapse_group_key, object_group_key, compute_net_collapse_view, is_empty,
}

pub data DeliveryLifecycle : Type 0 where
  turn_interruptible turn_idle post_compact : DeliveryLifecycle

pub data InterpretDecision : Type 0 where
  deliver suppress failed : InterpretDecision

-- A row of `session_event_state`: one event as one session sees it.
pub record EventState : Type 0 where
  pub session_id : Text
  pub event_id : Text
  pub first_notified_at : Option ℕ
  pub last_claim_at : Option ℕ
  pub last_claim_lifecycle : Option DeliveryLifecycle
  pub acknowledged_at : Option ℕ
  pub interpret_decision : Option InterpretDecision
  pub interpret_digest : Option Text
  pub net_suppressed_at : Option ℕ
  pub diff_text : Option Text
  pub updated_at : ℕ

pub record SessionCursor : Type 0 where
  pub session_id : Text
  pub monitor_id : Text
  pub object_key : Text
  pub workspace_path : Option Text
  pub baseline_snapshot_id : Option Text
  pub baseline_content : Text
  pub updated_at : ℕ

pub data AgentSessionRole : Type 0 where
  lead subagent : AgentSessionRole

pub data AgentSessionStatus : Type 0 where
  active dormant : AgentSessionStatus

pub record AgentSession : Type 0 where
  pub id : Text
  pub adapter : Text
  pub host_session_id : Text
  pub agent_identity : Text
  pub role : AgentSessionRole
  pub workspace_path : Option Text
  pub hook_state_path : Text
  pub status : AgentSessionStatus
  pub baseline_at : ℕ
  pub last_active_at : ℕ
  pub last_recap_at : Option ℕ
  pub dormant_at : Option ℕ
  pub created_at : ℕ
  pub updated_at : ℕ

-- An agent-declared monitor, bound to a session; `reaped_at` is absent while it is active. Its
-- source, scope and instruction are carried and not read here.
pub record EphemeralMonitor : Type 0 where
  pub id : Text
  pub session_id : Text
  pub workspace_path : Option Text
  pub urgency : Urgency
  pub urgency_max : Urgency
  pub is_active : Bool
  pub created_at : ℕ
  pub updated_at : ℕ
  pub reaped_at : Option ℕ

pub record MonitorSnapshot : Type 0 where
  pub workspace_path : Option Text
  pub monitor_id : Text
  pub object_key : Text
  pub event_id : Text
  pub content : Text
  pub created_at : ℕ

-- A tombstone of `object_event_suppressions`.
pub record ObjectSuppression : Type 0 where
  pub monitor_id : Text
  pub object_key : Text
  pub workspace_path : Option Text
  pub created_at : ℕ
  pub expires_at : ℕ

pub record Store : Type 0 where
  pub sessions : List AgentSession
  pub events : List MonitorEvent
  pub states : List EventState
  pub cursors : List SessionCursor
  pub snapshots : List MonitorSnapshot
  pub suppressions : List ObjectSuppression
  pub ephemerals : List EphemeralMonitor

-- UPDATE … SET … WHERE
abbrev pub update_where {ℓ} : {A : Type ℓ} → (A → Bool) → (A → A) → List A → List A
update_where sel set [] = []
update_where sel set (x ∷ xs) = (if sel x then set x else x) ∷ update_where sel set xs

-- The inner join of `session_event_state` and `monitor_events` on the event's id.
unfoldable pub join_one : EventState → List MonitorEvent → List (EventState × MonitorEvent)
join_one s [] = []
join_one s (e ∷ es) = if text_eq s.event_id e.id then (s, e) ∷ join_one s es else join_one s es

unfoldable pub join : List EventState → List MonitorEvent → List (EventState × MonitorEvent)
unfolding join_one
join [] es = []
join (s ∷ ss) es = join_one s es ++ join ss es

-- ORDER BY monitor_events.created_at, monitor_events.id
unfoldable pub insert_row :
    EventState × MonitorEvent → List (EventState × MonitorEvent) → List (EventState × MonitorEvent)
insert_row p [] = p ∷ []
insert_row p (q ∷ qs) = if event_leb p.1 q.1 then p ∷ q ∷ qs else q ∷ insert_row p qs

unfoldable pub order_rows : List (EventState × MonitorEvent) → List (EventState × MonitorEvent)
unfolding insert_row
order_rows [] = []
order_rows (p ∷ ps) = insert_row p (order_rows ps)

abbrev pub not_interpret_suppressed : EventState → Bool
not_interpret_suppressed s = elim s.interpret_decision [
  | some d ↦ elim d [ suppress ↦ false | _ ↦ true ]
  | none ↦ true
]

abbrev pub not_net_suppressed : EventState → Bool
not_net_suppressed s = is_none s.net_suppressed_at

-- An urgency that is not asked for matches every event.
abbrev pub matches_urgency : Option Urgency → MonitorEvent → Bool
matches_urgency none e = true
matches_urgency (some u) e = urgency_eq e.urgency u

abbrev pub is_unread : Text → Option Urgency → EventState × MonitorEvent → Bool
is_unread session urgency p =
    (text_eq p.0.session_id session && matches_urgency urgency p.1)
    && (is_none p.0.acknowledged_at && (not_interpret_suppressed p.0 && not_net_suppressed p.0))

abbrev pub is_pending : Text → Option Urgency → EventState × MonitorEvent → Bool
is_pending session urgency p =
    (text_eq p.0.session_id session && matches_urgency urgency p.1)
    && (is_none p.0.acknowledged_at
        && (is_none p.0.first_notified_at
            && (not_interpret_suppressed p.0 && not_net_suppressed p.0)))

abbrev pub event_of : EventState × MonitorEvent → MonitorEvent
event_of p = p.1

-- A condition on the joined rows may be tested before or after they are ordered.
unfoldable pub select_events : (EventState × MonitorEvent → Bool) → Store → List MonitorEvent
unfolding join order_rows
select_events test s = map event_of (keep test (order_rows (join s.states s.events)))

unfoldable pub unread_events_for_session : Text → Option Urgency → Store → List MonitorEvent
unread_events_for_session session urgency = select_events (is_unread session urgency)

unfoldable pub pending_events_for_session : Text → Option Urgency → Store → List MonitorEvent
pending_events_for_session session urgency = select_events (is_pending session urgency)

-- session_id = … AND event_id IN (…)
abbrev pub is_row_of : Text → List Text → EventState → Bool
is_row_of session ids s = text_eq s.session_id session && includes ids s.event_id

abbrev pub update_states : Text → List Text → (EventState → EventState) → Store → Store
update_states session ids set s = record s {
  states = update_where (is_row_of session ids) set s.states;
}

unfoldable pub acknowledge_events : ℕ → Text → List Text → Store → Store
acknowledge_events now session ids s =
    if is_empty ids
    then s
    else update_states session ids (λ r. record r { acknowledged_at = some now; updated_at = now })
        s

unfoldable pub touch_session : ℕ → Text → Store → Store
touch_session now session s = record s {
  sessions =
      update_where (λ a. text_eq a.id session)
        (λ a. record a { last_active_at = now; updated_at = now }) s.sessions;
}

unfoldable pub update_session_recap : ℕ → Text → Store → Store
update_session_recap now session s = record s {
  sessions =
      update_where (λ a. text_eq a.id session)
        (λ a. record a { last_recap_at = some now; last_active_at = now; updated_at = now })
        s.sessions;
}

-- The key of `session_object_cursor`.
abbrev pub is_cursor : Text → Text → Text → Option Text → SessionCursor → Bool
is_cursor session monitor key workspace c =
    (text_eq c.session_id session && text_eq c.monitor_id monitor)
    && (text_eq c.object_key key && option_text_eq c.workspace_path workspace)

-- The first row that fits, as `.get()` gives it.
abbrev pub find {ℓ} : {A : Type ℓ} → (A → Bool) → List A → Option A
find test [] = none
find test (x ∷ xs) = if test x then some x else find test xs

unfoldable pub get_session_object_cursor :
    Text → Text → Text → Option Text → Store → Option SessionCursor
get_session_object_cursor session monitor key workspace s =
    find (is_cursor session monitor key workspace) s.cursors

unfoldable pub advance_session_object_cursor : ℕ → SessionCursor → Store → Store
unfolding get_session_object_cursor
advance_session_object_cursor now c s =
    let same = is_cursor c.session_id c.monitor_id c.object_key c.workspace_path in
    elim (get_session_object_cursor c.session_id c.monitor_id c.object_key c.workspace_path s) [
      | some found ↦ record s {
        cursors =
            update_where same
              (λ d. record d {
                baseline_snapshot_id = c.baseline_snapshot_id;
                baseline_content = c.baseline_content;
                updated_at = now;
              })
              s.cursors;
      }
      | none ↦ record s { cursors = s.cursors ++ (record c { updated_at = now } ∷ []) }
    ]

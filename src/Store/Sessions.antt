-- ===== src/Store/Sessions.antt =====
-- libs/core/src/runtime/store.ts: sessions, and the ephemeral monitors that live with them. An
-- upsert by adapter and host session; no row is ever deleted.
use agent_monitors.Prelude.{
  ℕ, Bool, true, false, ◌&&◌, ◌||◌, not, Option, none, some, List, [], ◌∷◌, ◌++◌, map, Text,
  text_eq, option_text_eq, keep, any, leb, ltb, if◌then◌else◌, or_else, is_none,
}
use agent_monitors.Store.{
  Store, AgentSession, AgentSessionRole, lead, subagent, AgentSessionStatus, active, dormant,
  EphemeralMonitor, update_where, find,
}

pub record OpenSessionInput : Type 0 where
  pub adapter : Text
  pub host_session_id : Text
  pub workspace_path : Option Text
  pub role : Option AgentSessionRole
  pub agent_identity : Text
  pub hook_state_path : Text

abbrev pub is_host_session : Text → Text → AgentSession → Bool
is_host_session adapter host a = text_eq a.adapter adapter && text_eq a.host_session_id host

-- `a ?? b` of two optional values
abbrev pub or_option {ℓ} : {A : Type ℓ} → Option A → Option A → Option A
or_option none b = b
or_option (some a) b = some a

abbrev pub reopened : ℕ → OpenSessionInput → AgentSession → AgentSession
reopened now input a = record a {
  agent_identity = input.agent_identity;
  role = or_else input.role a.role;
  workspace_path = or_option input.workspace_path a.workspace_path;
  hook_state_path = input.hook_state_path;
  status = active;
  last_active_at = now;
  dormant_at = none;
  updated_at = now;
}

abbrev pub opened : ℕ → Text → OpenSessionInput → AgentSession
opened now id input = record {
  id = id;
  adapter = input.adapter;
  host_session_id = input.host_session_id;
  agent_identity = input.agent_identity;
  role = or_else input.role lead;
  workspace_path = input.workspace_path;
  hook_state_path = input.hook_state_path;
  status = active;
  baseline_at = now;
  last_active_at = now;
  last_recap_at = none;
  dormant_at = none;
  created_at = now;
  updated_at = now;
}

-- The branches of `openSession`: an update of the row that is there, or a new row.
unfoldable pub open_found : ℕ → Text → OpenSessionInput → Option AgentSession → Store → Store
open_found now id input none s = record s { sessions = s.sessions ++ opened now id input ∷ [] }
open_found now id input (some a) s = record s {
  sessions = update_where (λ b. text_eq b.id a.id) (reopened now input) s.sessions;
}

-- `id` is what `ulid()` gives.
unfoldable pub open_session : ℕ → Text → OpenSessionInput → Store → Store
unfolding open_found
open_session now id input s =
    open_found now id input (find (is_host_session input.adapter input.host_session_id) s.sessions)
      s

unfoldable pub close_session : ℕ → Text → Store → Store
close_session now session s = record s {
  sessions =
      update_where (λ a. text_eq a.id session)
        (λ a. record a {
          status = dormant;
          dormant_at = some now;
          last_active_at = now;
          updated_at = now;
        })
        s.sessions;
}

abbrev pub is_active_status : AgentSessionStatus → Bool
is_active_status active = true
is_active_status dormant = false

abbrev pub is_lead : AgentSessionRole → Bool
is_lead lead = true
is_lead subagent = false

-- A row of the workspace or of no workspace; without a workspace, of no workspace only.
abbrev pub in_workspace : Option Text → Option Text → Bool
in_workspace none path = is_none path
in_workspace (some workspace) path = option_text_eq path (some workspace) || is_none path

-- ORDER BY of a number; rows of one number stay in the order of insertion.
module _ {A : Type 0} (key : A → ℕ) where
  unfoldable pub insert_by : A → List A → List A
  insert_by a [] = a ∷ []
  insert_by a (b ∷ bs) = if leb (key a) (key b) then a ∷ b ∷ bs else b ∷ insert_by a bs

  unfoldable pub order_by : List A → List A
  unfolding insert_by
  order_by [] = []
  order_by (a ∷ bs) = insert_by a (order_by bs)

unfoldable pub sessions_for_workspace : Option Text → Store → List AgentSession
unfolding order_by
sessions_for_workspace workspace s =
    order_by (λ a. a.created_at) (keep (λ a. in_workspace workspace a.workspace_path) s.sessions)

-- `none` is the insert that throws at an id that is there.
unfoldable pub insert_ephemeral_monitor : EphemeralMonitor → ℕ → Store → Option Store
insert_ephemeral_monitor m now s =
    if any (λ n. text_eq n.id m.id) s.ephemerals
    then none
    else some record s {
      ephemerals =
          s.ephemerals
          ++ record m { is_active = true; created_at = now; updated_at = now; reaped_at = none }
            ∷ [];
    }

unfoldable pub find_ephemeral_monitor_by_id : Text → Store → Option EphemeralMonitor
find_ephemeral_monitor_by_id id s = find (λ m. text_eq m.id id) s.ephemerals

abbrev pub reaped : ℕ → EphemeralMonitor → EphemeralMonitor
reaped now m = record m { is_active = false; reaped_at = some now; updated_at = now }

unfoldable pub reap_ephemeral_monitor : ℕ → Text → Store → Store
reap_ephemeral_monitor now id s = record s {
  ephemerals = update_where (λ m. text_eq m.id id && m.is_active) (reaped now) s.ephemerals;
}

abbrev pub is_watch_of : Text → EphemeralMonitor → Bool
is_watch_of session m = text_eq m.session_id session && m.is_active

-- The ids reaped are those of the active watches of the session.
unfoldable pub reap_ephemeral_monitors_for_session : ℕ → Text → Store → List Text × Store
reap_ephemeral_monitors_for_session now session s = (
  map (λ m. m.id) (keep (is_watch_of session) s.ephemerals),
  record s { ephemerals = update_where (is_watch_of session) (reaped now) s.ephemerals },
)

-- The inner join with the declaring session, both active.
unfoldable pub has_active_session : List AgentSession → EphemeralMonitor → Bool
has_active_session rows m = any (λ a. text_eq m.session_id a.id && is_active_status a.status) rows

unfoldable pub list_active_ephemeral_monitors : Option Text → Store → List EphemeralMonitor
unfolding has_active_session order_by
list_active_ephemeral_monitors workspace s =
    order_by (λ m. m.created_at)
      (keep
        (λ m.
          (m.is_active && has_active_session s.sessions m)
          && in_workspace workspace m.workspace_path)
        s.ephemerals)

-- Active sessions without activity since the time, and without a watch declared after it.
unfoldable pub stale_active_sessions : Option Text → ℕ → Store → List AgentSession
stale_active_sessions workspace stale_before s =
    keep
      (λ a.
        (is_active_status a.status && in_workspace workspace a.workspace_path)
        && (leb a.last_active_at stale_before
            && not (any (λ m. is_watch_of a.id m && ltb stale_before m.created_at) s.ephemerals)))
      s.sessions

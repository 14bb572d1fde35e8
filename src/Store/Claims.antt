-- ===== src/Store/Claims.antt =====
-- libs/core/src/runtime/store.ts: what a claim writes. `build_diff previous current strategy`
-- stands for `buildDiff` of libs/core/src/runtime/diff.ts, whose text no theorem here reads.
use agent_monitors.Prelude.{
  ℕ, Option, none, some, List, [], ◌∷◌, Text, includes, keep, get, put, ltb, if◌then◌else◌, or_else,
}
use agent_monitors.Event.{
  MonitorEvent, NetCollapseView, sort_events, net_collapse_group_key, object_group_key,
  compute_net_collapse_view, is_empty, BaselineStrategy, net,
}
use agent_monitors.Store.{
  Store, EventState, SessionCursor, DeliveryLifecycle, update_states, get_session_object_cursor,
  advance_session_object_cursor,
}

unfoldable pub mark_net_suppressed : ℕ → Text → List Text → Store → Store
mark_net_suppressed now session ids s =
    if is_empty ids
    then s
    else update_states session ids
        (λ r. record r { net_suppressed_at = some now; updated_at = now }) s

unfoldable pub set_per_recipient_diff : ℕ → Text → Text → Text → Store → Store
set_per_recipient_diff now session id diff s =
    update_states session (id ∷ []) (λ r. record r { diff_text = some diff; updated_at = now }) s

module _ (build_diff : Text → Text → Option Text → Text) where
  -- The delta of one surviving event: rendered anew from the recipient's cursor.
  unfoldable pub reanchor_from :
      ℕ → Text → MonitorEvent → Text → Option SessionCursor → Store → Store
  unfolding set_per_recipient_diff
  reanchor_from now session e artifact none s = s
  reanchor_from now session e artifact (some c) s =
      set_per_recipient_diff now session e.id
        (build_diff c.baseline_content artifact e.snapshot_strategy) s

  -- One round of the loop over the delivered events, at an event with a snapshot and a key.
  unfoldable pub reanchor_group :
      ℕ → Text → NetCollapseView → MonitorEvent → Text → Text → Store → Store
  unfolding reanchor_from net_collapse_group_key get_session_object_cursor
  reanchor_group now session view e artifact key s =
      if ltb 1 (or_else (get (net_collapse_group_key e) view.net_group_size_by_key) 1)
      then reanchor_from now session e artifact
          (get_session_object_cursor session e.monitor_id key e.workspace_path s) s
      else s

  -- The loop skips an event that is not `net` or lacks a snapshot or a key.
  unfoldable pub reanchor_parts :
      ℕ
      → Text
      → NetCollapseView
      → MonitorEvent
      → BaselineStrategy
      → Option Text
      → Option Text
      → Store
      → Store
  unfolding reanchor_group
  reanchor_parts now session view e net (some artifact) (some key) s =
      reanchor_group now session view e artifact key s
  reanchor_parts now session view e _ _ _ s = s

  unfoldable pub reanchor : ℕ → Text → NetCollapseView → MonitorEvent → Store → Store
  unfolding reanchor_parts
  reanchor now session view e s =
      reanchor_parts now session view e e.baseline_strategy e.snapshot_text e.object_key s

  unfoldable pub reanchor_all : ℕ → Text → NetCollapseView → List MonitorEvent → Store → Store
  unfolding reanchor
  reanchor_all now session view [] s = s
  reanchor_all now session view (e ∷ es) s =
      reanchor_all now session view es (reanchor now session view e s)

  -- The store after the collapse; what it returns is the view's `delivered`.
  unfoldable pub collapse_net_for_claim : ℕ → Text → List MonitorEvent → Store → Store
  unfolding reanchor_all mark_net_suppressed compute_net_collapse_view
  collapse_net_for_claim now session candidates s =
      let view = compute_net_collapse_view candidates in
      if is_empty view.net_group_size_by_key
      then s
      else mark_net_suppressed now session view.suppressed_ids
          (reanchor_all now session view view.delivered s)

-- The cursor that a claimed event with an artifact moves its object's baseline to.
abbrev pub cursor_target : Text → MonitorEvent → Option Text → Option Text → Option SessionCursor
cursor_target session e (some artifact) (some key) = some (record {
  session_id = session;
  monitor_id = e.monitor_id;
  object_key = key;
  workspace_path = e.workspace_path;
  baseline_snapshot_id = some e.id;
  baseline_content = artifact;
  updated_at = 0;
})
cursor_target _ _ _ _ = none

abbrev pub put_target :
    Option SessionCursor → List (Text × SessionCursor) → List (Text × SessionCursor)
put_target none m = m
put_target (some c) m = put (object_group_key c.monitor_id c.object_key c.workspace_path) c m

-- In ascending order, so that the newest claimed event of an object stays.
unfoldable pub newest_targets :
    Text → List (Text × SessionCursor) → List MonitorEvent → List (Text × SessionCursor)
newest_targets session m [] = m
newest_targets session m (e ∷ es) =
    newest_targets session (put_target (cursor_target session e e.snapshot_text e.object_key) m) es

unfoldable pub advance_all : ℕ → List (Text × SessionCursor) → Store → Store
unfolding advance_session_object_cursor
advance_all now [] s = s
advance_all now ((k, c) ∷ m) s = advance_all now m (advance_session_object_cursor now c s)

-- The ids whose newest artifacts become baselines, in ascending order of their events.
abbrev pub claimed_targets : Text → List Text → Store → List (Text × SessionCursor)
claimed_targets session ids s =
    newest_targets session [] (sort_events (keep (λ e. includes ids e.id) s.events))

unfoldable pub advance_cursors_for_claimed_events : ℕ → Text → List Text → Store → Store
unfolding newest_targets advance_all sort_events
advance_cursors_for_claimed_events now session ids s =
    advance_all now (claimed_targets session ids s) s

abbrev pub as_claimed : ℕ → DeliveryLifecycle → EventState → EventState
as_claimed now lifecycle r = record r {
  first_notified_at = some now;
  last_claim_at = some now;
  last_claim_lifecycle = some lifecycle;
  updated_at = now;
}

unfoldable pub mark_claimed : ℕ → Text → List Text → DeliveryLifecycle → Store → Store
unfolding advance_cursors_for_claimed_events
mark_claimed now session ids lifecycle s =
    if is_empty ids
    then s
    else advance_cursors_for_claimed_events now session ids
        (update_states session ids (as_claimed now lifecycle) s)

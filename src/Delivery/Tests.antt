-- ===== src/Delivery/Tests.antt =====
-- A session with three events, two of them of one object under the net strategy, and the
-- theorems of delivery at it.
use agent_monitors.Prelude.{
  ℕ, ◌≡◌, ◌≤◌, length, refl, inl, false, ◌&&◌, not, Option, none, some, [], ◌∷◌, ◌++◌, Text,
  text_eq, text_leb, option_text_eq, get, put, includes, keep, or_else, arith, decimal,
  decimal_upto,
}
use agent_monitors.Event.{
  Urgency, high, BaselineStrategy, incremental, net, MonitorEvent, event_leb, insert_event,
  sort_events, newest_by_object, group_sizes, survives, net_collapse_group_key,
  compute_net_collapse_view,
}
use agent_monitors.Store.{
  EventState, lead, active, turn_interruptible, join_one, join, insert_row, order_rows,
  select_events, unread_events_for_session, pending_events_for_session, touch_session,
}
use agent_monitors.Store.Change.{is_left}
use agent_monitors.Reservations.{event_ids, reserved_event_ids}
use agent_monitors.Reservations.Leases.{leased}
use agent_monitors.Render.{
  collect, interpret_digests_for_session, per_recipient_diffs_for_session, recipient_summary,
  to_delivery_event_summary, join_lines, numbered, summarize_events, summary_lines,
}
use agent_monitors.Delivery.{
  delivery, DeliveryDecision, pending_for_claim, leased_pending_count, settled_high, reminder_due,
  surfaced_candidates, event_summaries, events_message, decide_high, decide_reminder, decide_recap,
  decide_delivery,
}
use agent_monitors.Delivery.Ops.{
  Runtime, touched, decided, claim_delivery, reserve_delivery, commit_delivery, release_delivery,
  acknowledge_session, ack_ids, apply_to_store,
}
use agent_monitors.Delivery.Claiming.{claim_consumes}
use agent_monitors.Delivery.Deciding.{IsTakeable, decide_takes}
use agent_monitors.Delivery.Reserving.{
  reserve_hides, reserve_commit, reserve_expires, reserve_release,
}
use agent_monitors.Delivery.Draining.{drain, drain_ends}
use agent_monitors.Delivery.Acknowledging.{acknowledge_removes, acknowledge_all-leased}

abbrev s1 : Text
s1 = 115 ∷ []

abbrev s2 : Text
s2 = 116 ∷ []

abbrev event : Text → Urgency → BaselineStrategy → Option Text → Option Text → ℕ → MonitorEvent
event id urgency strategy object snapshot created_at = record {
  id = id;
  workspace_path = none;
  monitor_id = 109 ∷ [];
  urgency = urgency;
  title = id;
  body = [];
  summary = [];
  snapshot_text = snapshot;
  snapshot_strategy = none;
  diff_text = none;
  object_key = object;
  baseline_strategy = strategy;
  created_at = created_at;
}

abbrev older : MonitorEvent
older = event (97 ∷ []) high net (some (107 ∷ [])) (some (49 ∷ [])) 1_000

abbrev newer : MonitorEvent
newer = event (98 ∷ []) high net (some (107 ∷ [])) (some (50 ∷ [])) 2_000

abbrev other_event : MonitorEvent
other_event = event (99 ∷ []) high incremental none none 3_000

abbrev state : Text → Text → EventState
state session id = record {
  session_id = session;
  event_id = id;
  first_notified_at = none;
  last_claim_at = none;
  last_claim_lifecycle = none;
  acknowledged_at = none;
  interpret_decision = none;
  interpret_digest = none;
  net_suppressed_at = none;
  diff_text = none;
  updated_at = 0;
}

abbrev start : Runtime
start = record {
  view = record {
    store = record {
      sessions =
          record {
            id = s1;
            adapter = [];
            host_session_id = s1;
            agent_identity = [];
            role = lead;
            workspace_path = none;
            hook_state_path = [];
            status = active;
            baseline_at = 0;
            last_active_at = 0;
            last_recap_at = none;
            dormant_at = none;
            created_at = 0;
            updated_at = 0;
          }
          ∷ [];
      events = older ∷ newer ∷ other_event ∷ [];
      states =
          state s1 older.id ∷ state s1 newer.id ∷ state s1 other_event.id ∷ state s2 newer.id ∷ [];
      cursors = [];
      snapshots = [];
      suppressions = [];
      ephemerals = [];
    };
    reservations = [];
  };
  hook_states = [];
}

-- A stand-in for `buildDiff`.
abbrev diff : Text → Text → Option Text → Text
diff a b name = a ++ b

abbrev no_decision : DeliveryDecision
no_decision = record {
  session_id = [];
  candidates = [];
  is_recap = false;
  claim = record {
    session_id = [];
    lifecycle = turn_interruptible;
    mode = delivery;
    urgency = none;
    unread_counts = record { low = 0; normal = 0; high = 0; total = 0 };
    message = [];
    events = [];
    coalesced_reminder = none;
    coalesced_normal_count = none;
  };
}

-- With room for one body, the object's two events go out as one.
abbrev decision : DeliveryDecision
decision = record no_decision {
  session_id = s1;
  candidates = older ∷ newer ∷ [];
  claim = (or_else (decided 60_000 s1 turn_interruptible (some 1) start) no_decision).claim;
}

decided_run : decided 60_000 s1 turn_interruptible (some 1) start ≡ some decision
unfolding text_eq text_leb option_text_eq get put event_leb insert_event sort_events
    newest_by_object group_sizes survives net_collapse_group_key compute_net_collapse_view join_one
    join insert_row order_rows select_events unread_events_for_session pending_events_for_session
    touch_session reserved_event_ids collect interpret_digests_for_session
    per_recipient_diffs_for_session recipient_summary to_delivery_event_summary join_lines numbered
    summarize_events summary_lines pending_for_claim leased_pending_count settled_high reminder_due
    surfaced_candidates event_summaries events_message decide_high decide_reminder decide_recap
    decide_delivery decimal decimal_upto
decided_run = refl

claim_consumes_example :
    pending_events_for_session s1 none
      (claim_delivery diff 60_000 s1 turn_interruptible (some 1) start).1.view.store
    ≡ keep
        (is_left s1 s1 (event_ids decision.candidates))
        (pending_events_for_session s1 none start.view.store)
claim_consumes_example =
    claim_consumes diff 60_000 s1 turn_interruptible (some 1) start decision s1 none decided_run

abbrev lease : Text
lease = 114 ∷ []

no_lease : get lease start.view.reservations ≡ none
unfolding get
no_lease = refl

abbrev reserved : Runtime
reserved = (reserve_delivery 60_000 lease s1 turn_interruptible (some 1) start).1

reserve_hides_example :
    pending_for_claim 70_000 s1 none reserved.view
    ≡ keep
        (λ e. not (text_eq s1 s1 && includes (event_ids decision.candidates) e.id))
        (pending_for_claim 70_000 s1 none start.view)
reserve_hides_example =
    reserve_hides 60_000 lease s1 turn_interruptible (some 1) start decision decided_run no_lease
      70_000 s1 none (omega arith) (omega arith)

reserve_commit_example :
    ((commit_delivery diff 70_000 lease reserved).0 ≡ some decision.claim)
    × ((commit_delivery diff 70_000 lease reserved).1.view.store
        ≡ apply_to_store diff 70_000 s1 decision.candidates false turn_interruptible
            (touch_session 60_000 s1 start.view.store))
reserve_commit_example =
    reserve_commit 60_000 lease s1 turn_interruptible (some 1) start decision decided_run no_lease
      diff 70_000 (omega arith) (omega arith)

reserve_expires_example :
    ((commit_delivery diff 90_000 lease reserved).0 ≡ none)
    × ((commit_delivery diff 90_000 lease reserved).1.view.store
        ≡ touch_session 60_000 s1 start.view.store)
reserve_expires_example =
    reserve_expires 60_000 lease s1 turn_interruptible (some 1) start decision decided_run no_lease
      diff 90_000 (omega arith)

reserve_release_example :
    pending_for_claim 65_000 s1 none (release_delivery 62_000 lease reserved).view
    ≡ pending_for_claim 65_000 s1 none start.view
reserve_release_example =
    reserve_release 60_000 lease s1 turn_interruptible (some 1) start decision decided_run no_lease
      62_000 65_000 s1 none (omega arith) (omega arith)

acknowledge_removes_example :
    (unread_events_for_session s2 none (acknowledge_session 60_000 s1 none start).view.store
      ≡ keep
          (is_left s1 s2 (ack_ids 60_000 s1 none start.view))
          (unread_events_for_session s2 none start.view.store))
    × (pending_events_for_session s2 none (acknowledge_session 60_000 s1 none start).view.store
        ≡ keep
            (is_left s1 s2 (ack_ids 60_000 s1 none start.view))
            (pending_events_for_session s2 none start.view.store))
acknowledge_removes_example = acknowledge_removes 60_000 s1 none start s2 none

acknowledge_all-leased_example :
    unread_events_for_session s1 none (acknowledge_session 61_000 s1 none reserved).view.store
    ≡ keep
        (λ e. includes (leased 61_000 s1 reserved.view.reservations) e.id)
        (unread_events_for_session s1 none reserved.view.store)
acknowledge_all-leased_example = acknowledge_all-leased 61_000 s1 reserved

decide_takes_example : IsTakeable 60_000 s1 (touched 60_000 s1 start).view older
decide_takes_example =
    decide_takes 60_000 s1 (touched 60_000 s1 start).view older turn_interruptible (some 1) decision
      decided_run refl (inl refl)

three_pending : length (pending_events_for_session s1 none start.view.store) ≤ 3
unfolding text_eq text_leb event_leb join_one join insert_row order_rows select_events
    pending_events_for_session
three_pending = omega arith

drain_ends_example :
    decided 60_000 s1 turn_interruptible
      (some 1)
      (drain diff 60_000 s1 turn_interruptible (some 1) 3 start)
    ≡ none
drain_ends_example =
    drain_ends diff 60_000 s1 turn_interruptible (some 1) 3 start refl three_pending

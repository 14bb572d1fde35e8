-- ===== src/Delivery.antt =====
-- The delivery methods of libs/core/src/runtime/service.ts: decide, claim, reserve, commit,
-- release, acknowledge, and the hook-state projection. A method reads the clock once (`now`).
-- Pruning of expired reservations, which every read of the registry does, is one step of a method.
pub mod Ops
pub mod Claiming
pub mod Deciding
pub mod Surfacing
pub mod Draining
pub mod Reserving
pub mod Acknowledging
mod Tests
use agent_monitors.Prelude.{
  ℕ, ◌+◌, ◌-◌, min, max, Bool, true, false, ◌&&◌, not, Option, none, some, List, [], ◌∷◌, ◌++◌, map,
  Text, codes, includes, keep, any, length, take, drop, put, ltb, leb, ◌==◌, if◌then◌else◌,
}
use agent_monitors.Event.{
  Urgency, low, normal, high, MonitorEvent, compute_net_collapse_view, net_collapse_group_key,
  is_empty,
}
use agent_monitors.Store.{
  Store, DeliveryLifecycle, turn_interruptible, turn_idle, post_compact, unread_events_for_session,
  pending_events_for_session,
}
use agent_monitors.Reservations.{Registry, reserved_event_ids}
use agent_monitors.Render.{
  DeliveryEventSummary, interpret_digests_for_session, per_recipient_diffs_for_session,
  to_delivery_event_summary, summarize_events, summary_lines, reminder_message,
  coalesced_normal_suffix, recap_message,
}

abbrev pub default_high_urgency_settle_ms : ℕ
default_high_urgency_settle_ms = 15_000

abbrev pub max_recap_events : ℕ
max_recap_events = 10

pub data DeliveryMode : Type 0 where
  delivery recap : DeliveryMode

pub record UnreadCounts : Type 0 where
  pub low : ℕ
  pub normal : ℕ
  pub high : ℕ
  pub total : ℕ

pub record DeliveryClaim : Type 0 where
  pub session_id : Text
  pub lifecycle : DeliveryLifecycle
  pub mode : DeliveryMode
  pub urgency : Option Urgency
  pub unread_counts : UnreadCounts
  pub message : Text
  pub events : List DeliveryEventSummary
  pub coalesced_reminder : Option Text
  pub coalesced_normal_count : Option ℕ

pub record DeliveryDecision : Type 0 where
  pub session_id : Text
  pub candidates : List MonitorEvent
  pub is_recap : Bool
  pub claim : DeliveryClaim

-- What a decision reads.
pub record View : Type 0 where
  pub store : Store
  pub reservations : Registry DeliveryClaim

abbrev pub unread_counts : Text → Store → UnreadCounts
unread_counts session s =
    let l = length (unread_events_for_session session (some Urgency.low) s) in
    let n = length (unread_events_for_session session (some Urgency.normal) s) in
    let h = length (unread_events_for_session session (some Urgency.high) s) in
    record { low = l; normal = n; high = h; total = l + n + h }

unfoldable pub pending_for_claim : ℕ → Text → Option Urgency → View → List MonitorEvent
pending_for_claim now session urgency v =
    let pending = pending_events_for_session session urgency v.store in
    let reserved = (reserved_event_ids now session v.reservations).0 in
    if is_empty reserved then pending else keep (λ e. not (includes reserved e.id)) pending

unfoldable pub leased_pending_count : ℕ → Text → Option Urgency → View → ℕ
leased_pending_count now session urgency v =
    let reserved = (reserved_event_ids now session v.reservations).0 in
    if is_empty reserved
    then 0
    else length
        (keep (λ e. includes reserved e.id) (pending_events_for_session session urgency v.store))

-- `now - createdAt >= settle`
abbrev pub is_settled : ℕ → MonitorEvent → Bool
is_settled now e = leb (e.created_at + default_high_urgency_settle_ms) now

unfoldable pub settled_high : ℕ → Text → View → List MonitorEvent
settled_high now session v = keep (is_settled now) (pending_for_claim now session (some high) v)

-- A reminder of a band is due: it has fresh work, and none of it is leased.
unfoldable pub reminder_due : ℕ → Text → Urgency → View → Bool
reminder_due now session urgency v =
    not (is_empty (pending_for_claim now session (some urgency) v))
    && leased_pending_count now session (some urgency) v == 0

abbrev pub limit : ℕ → Option ℕ → ℕ
limit n none = n
limit n (some m) = min n (max 1 m)

-- The settled events of the surfaced groups.
unfoldable pub surfaced_candidates : List MonitorEvent → Option ℕ → List MonitorEvent
surfaced_candidates settled max_events =
    let representatives = (compute_net_collapse_view settled).delivered in
    let surfaced = take (limit (length representatives) max_events) representatives in
    let keys = map net_collapse_group_key surfaced in
    keep (λ e. includes keys (net_collapse_group_key e)) settled

unfoldable pub event_summaries : Text → List MonitorEvent → Store → List DeliveryEventSummary
event_summaries session es s =
    let ids = map (λ (e : MonitorEvent). e.id) es in
    map
      (λ (e : MonitorEvent).
        to_delivery_event_summary e (interpret_digests_for_session session ids s)
          (per_recipient_diffs_for_session session ids s))
      es

unfoldable pub events_message : Text → List MonitorEvent → Store → List (Text × Text)
events_message session es s =
    summary_lines (interpret_digests_for_session session (map (λ (e : MonitorEvent). e.id) es) s) es

-- The settled high-urgency delivery, with a due normal reminder folded in.
unfoldable pub decide_high : ℕ → Text → Option ℕ → View → DeliveryDecision
decide_high now session max_events v =
    let candidates = surfaced_candidates (settled_high now session v) max_events in
    let surfaced = (compute_net_collapse_view candidates).delivered in
    let normal_pending = pending_for_claim now session (some normal) v in
    let due = reminder_due now session normal v in
    let message = summarize_events (events_message session surfaced v.store) in
    record {
      session_id = session;
      candidates = if due then candidates ++ normal_pending else candidates;
      is_recap = false;
      claim = record {
        session_id = session;
        lifecycle = turn_interruptible;
        mode = delivery;
        urgency = some high;
        unread_counts = unread_counts session v.store;
        message = if due then message ++ coalesced_normal_suffix else message;
        events = event_summaries session surfaced v.store;
        coalesced_reminder = if due then some reminder_message else none;
        coalesced_normal_count = if due then some (length normal_pending) else none;
      };
    }

-- A reminder without bodies, over the whole pending band.
unfoldable pub decide_reminder : ℕ → Text → DeliveryLifecycle → Urgency → View → DeliveryDecision
decide_reminder now session lifecycle urgency v = record {
  session_id = session;
  candidates = pending_for_claim now session (some urgency) v;
  is_recap = false;
  claim = record {
    session_id = session;
    lifecycle = lifecycle;
    mode = delivery;
    urgency = some urgency;
    unread_counts = unread_counts session v.store;
    message = reminder_message;
    events = [];
    coalesced_reminder = none;
    coalesced_normal_count = none;
  };
}

-- `xs.slice(-n)`
abbrev pub take_last {ℓ} : {A : Type ℓ} → ℕ → List A → List A
take_last n xs = drop (length xs - n) xs

-- The recap of what is unread, leased or not.
unfoldable pub decide_recap : Text → View → DeliveryDecision
decide_recap session v =
    let unread = unread_events_for_session session none v.store in
    let slice = take_last max_recap_events (compute_net_collapse_view unread).delivered in
    record {
      session_id = session;
      candidates = unread;
      is_recap = true;
      claim = record {
        session_id = session;
        lifecycle = post_compact;
        mode = recap;
        urgency = none;
        unread_counts = unread_counts session v.store;
        message = recap_message session (events_message session slice v.store);
        events = event_summaries session slice v.store;
        coalesced_reminder = none;
        coalesced_normal_count = none;
      };
    }

unfoldable pub decide_delivery :
    ℕ → Text → DeliveryLifecycle → Option ℕ → View → Option DeliveryDecision
decide_delivery now session turn_interruptible max_events v =
    if not (is_empty (settled_high now session v))
    then some (decide_high now session max_events v)
    else if reminder_due now session normal v
        && is_empty (pending_for_claim now session (some high) v)
    then some (decide_reminder now session turn_interruptible normal v)
    else none
decide_delivery now session turn_idle max_events v =
    if reminder_due now session low v
    then some (decide_reminder now session turn_idle low v)
    else none
decide_delivery now session post_compact max_events v =
    if not (is_empty (unread_events_for_session session none v.store))
    then some (decide_recap session v)
    else none

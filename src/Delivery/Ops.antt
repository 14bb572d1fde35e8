-- ===== src/Delivery/Ops.antt =====
-- The delivery methods that write: `claimDelivery`, `reserveDelivery`, `commitDelivery`,
-- `releaseDelivery`, `acknowledgeSession`, `applyDelivery` and `refreshHookState` of
-- libs/core/src/runtime/service.ts. The hook-state file of a session is an entry of `hook_states`;
-- the adapter that lays its JSON out, and the failure on an unknown session, are left out.
use agent_monitors.Prelude.{
  ℕ, Bool, not, Option, none, some, List, map, Text, includes, keep, any, put, if◌then◌else◌,
}
use agent_monitors.Event.{low, normal, high, MonitorEvent, is_empty}
use agent_monitors.Store.{
  Store, DeliveryLifecycle, touch_session, update_session_recap, acknowledge_events,
  unread_events_for_session,
}
use agent_monitors.Store.Claims.{collapse_net_for_claim, mark_claimed}
use agent_monitors.Reservations.{
  Plan, add, take_plan, remove, reserved_event_ids, event_ids, default_delivery_reservation_ttl_ms,
}
use agent_monitors.Delivery.{
  UnreadCounts, DeliveryClaim, DeliveryDecision, View, unread_counts, pending_for_claim, is_settled,
  decide_delivery, take_last,
}

pub record HookState : Type 0 where
  pub updated_at : ℕ
  pub unread : UnreadCounts
  pub has_pending_high : Bool
  pub has_pending_normal : Bool
  pub has_pending_low : Bool
  pub latest_high_titles : List Text

pub record Runtime : Type 0 where
  pub view : View
  pub open view use *
  pub hook_states : List (Text × HookState)

unfoldable pub hook_state : ℕ → Text → View → HookState
hook_state now session v =
    let high_pending = pending_for_claim now session (some high) v in
    record {
      updated_at = now;
      unread = unread_counts session v.store;
      has_pending_high = any (is_settled now) high_pending;
      has_pending_normal = not (is_empty (pending_for_claim now session (some normal) v));
      has_pending_low = not (is_empty (pending_for_claim now session (some low) v));
      latest_high_titles = take_last 5 (map (λ (e : MonitorEvent). e.title) high_pending);
    }

-- Reading the registry removes what has expired.
unfoldable pub prune : ℕ → Text → View → View
prune now session v = record v { reservations = (reserved_event_ids now session v.reservations).1 }

unfoldable pub refresh_hook_state : ℕ → Text → Runtime → Runtime
refresh_hook_state now session rt = record {
  view = prune now session rt.view;
  hook_states = put session (hook_state now session rt.view) rt.hook_states;
}

abbrev pub with_store : (Store → Store) → Runtime → Runtime
with_store f rt = record rt { view = record rt.view { store = f rt.view.store } }

abbrev pub touched : ℕ → Text → Runtime → Runtime
touched now session rt = with_store (touch_session now session) rt

abbrev pub decided : ℕ → Text → DeliveryLifecycle → Option ℕ → Runtime → Option DeliveryDecision
decided now session lifecycle max_events rt =
    decide_delivery now session lifecycle max_events (touched now session rt).view

-- The runtime after the decision has read the registry.
abbrev pub after_reads : ℕ → Text → Runtime → Runtime
after_reads now session rt =
    let t = touched now session rt in record t { view = prune now session t.view }

abbrev pub plan_of : DeliveryDecision → Plan DeliveryClaim
plan_of d = record {
  session_id = d.session_id;
  candidates = d.candidates;
  is_recap = d.is_recap;
  claim = d.claim;
  expires_at = 0;
}

abbrev pub register :
    ℕ → Text → Option DeliveryDecision → Runtime → Option (Text × DeliveryClaim) × Runtime
register now reservation none rt = (none, rt)
register now reservation (some d) rt =
    let leased =
      add default_delivery_reservation_ttl_ms now reservation (plan_of d) rt.view.reservations in
    (
      some (reservation, d.claim),
      refresh_hook_state now d.session_id
          (record rt { view = record rt.view { reservations = leased } }),
    )

-- `reservation` is the id that `ulid()` gives.
unfoldable pub reserve_delivery :
    ℕ
    → Text
    → Text
    → DeliveryLifecycle
    → Option ℕ
    → Runtime
    → Option (Text × DeliveryClaim) × Runtime
reserve_delivery now reservation session lifecycle max_events rt =
    register now reservation (decided now session lifecycle max_events rt)
      (after_reads now session rt)

module _ (build_diff : Text → Text → Option Text → Text) where
  -- The writes of a claim to the tables.
  unfoldable pub apply_to_store :
      ℕ → Text → List MonitorEvent → Bool → DeliveryLifecycle → Store → Store
  apply_to_store now session candidates is_recap lifecycle s =
      let collapsed = collapse_net_for_claim build_diff now session candidates s in
      let claimed = mark_claimed now session (event_ids candidates) lifecycle collapsed in
      if is_recap then update_session_recap now session claimed else claimed

  unfoldable pub apply_delivery :
      ℕ → Text → List MonitorEvent → Bool → DeliveryClaim → Runtime → Runtime
  apply_delivery now session candidates is_recap claim rt =
      refresh_hook_state now session
        (with_store (apply_to_store now session candidates is_recap claim.lifecycle) rt)

  -- What `claimDelivery` does with its decision.
  abbrev pub apply_decision : ℕ → Option DeliveryDecision → Runtime → Option DeliveryClaim × Runtime
  apply_decision now none rt = (none, rt)
  apply_decision now (some d) rt =
      (some d.claim, apply_delivery now d.session_id d.candidates d.is_recap d.claim rt)

  unfoldable pub claim_delivery :
      ℕ → Text → DeliveryLifecycle → Option ℕ → Runtime → Option DeliveryClaim × Runtime
  claim_delivery now session lifecycle max_events rt =
      apply_decision now (decided now session lifecycle max_events rt) (after_reads now session rt)

  abbrev pub apply_plan : ℕ → Option (Plan DeliveryClaim) → Runtime → Option DeliveryClaim × Runtime
  apply_plan now none rt = (none, rt)
  apply_plan now (some p) rt =
      (some p.claim, apply_delivery now p.session_id p.candidates p.is_recap p.claim rt)

  unfoldable pub commit_delivery : ℕ → Text → Runtime → Option DeliveryClaim × Runtime
  commit_delivery now reservation rt =
      let taken = take_plan now reservation rt.view.reservations in
      apply_plan now taken.0 (record rt { view = record rt.view { reservations = taken.1 } })

abbrev pub refresh_removed : ℕ → Option (Plan DeliveryClaim) → Runtime → Runtime
refresh_removed now none rt = rt
refresh_removed now (some p) rt = refresh_hook_state now p.session_id rt

unfoldable pub release_delivery : ℕ → Text → Runtime → Runtime
release_delivery now reservation rt =
    let removed = remove reservation rt.view.reservations in
    refresh_removed now removed.0 (record rt { view = record rt.view { reservations = removed.1 } })

-- The ids that an acknowledgement without ids covers: the unread ones that are not leased.
unfoldable pub unleased_unread : ℕ → Text → View → List Text
unleased_unread now session v =
    let reserved = (reserved_event_ids now session v.reservations).0 in
    event_ids
      (keep (λ e. not (includes reserved e.id)) (unread_events_for_session session none v.store))

abbrev pub ack_ids : ℕ → Text → Option (List Text) → View → List Text
ack_ids now session (some ids) v = ids
ack_ids now session none v = unleased_unread now session v

unfoldable pub acknowledge_session : ℕ → Text → Option (List Text) → Runtime → Runtime
acknowledge_session now session ids rt =
    refresh_hook_state now session
      (with_store (acknowledge_events now session (ack_ids now session ids rt.view)) rt)

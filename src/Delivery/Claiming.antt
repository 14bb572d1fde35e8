-- ===== src/Delivery/Claiming.antt =====
-- What a claim consumes: it takes exactly its candidates from the pending events of its session.
use agent_monitors.Prelude.{
  ℕ, ◌≡◌, refl, inl, inr, ap, ◌∙◌, subst, Bool, ◌||◌, Option, some, List, [], ◌∷◌, ◌++◌, Text,
  text_eq, includes, keep, arith, append-nil, keep_cong, any-append, Bool-cases,
}
use agent_monitors.Event.Newest.{suppressed-keep}
use agent_monitors.Event.{MonitorEvent, Urgency, is_empty, compute_net_collapse_view}
use agent_monitors.Store.{
  turn_interruptible, turn_idle, post_compact, select_events, Store, DeliveryLifecycle,
  touch_session, update_session_recap, pending_events_for_session,
}
use agent_monitors.Store.Change.{Change, then-Change, same_rows, is_left, pending-change}
use agent_monitors.Store.Claimed.{hidden_ids, collapse-Change, mark_claimed-Change}
use agent_monitors.Store.Claims.{mark_claimed, collapse_net_for_claim}
use agent_monitors.Reservations.{event_ids}
use agent_monitors.Delivery.{
  DeliveryDecision, View, decide_delivery, decide_high, decide_reminder, decide_recap,
}
use agent_monitors.Delivery.Ops.{
  Runtime, touched, decided, apply_to_store, apply_delivery, refresh_hook_state, prune,
  claim_delivery,
}

module _ (build_diff : Text → Text → Option Text → Text) (now : ℕ) (session : Text) where
  recap-kept :
      (s : Store)
      → ((update_session_recap now session s).states ≡ s.states)
        × ((update_session_recap now session s).events ≡ s.events)
  unfolding update_session_recap
  recap-kept s = (refl, refl)

  pub apply_to_store-Change :
      (candidates : List MonitorEvent) (is_recap : Bool) (lifecycle : DeliveryLifecycle) (s : Store)
      → Change session
          (hidden_ids candidates)
          (hidden_ids candidates ++ event_ids candidates)
          s
          (apply_to_store build_diff now session candidates is_recap lifecycle s)
  unfolding apply_to_store
  apply_to_store-Change candidates is_recap lifecycle s =
      let collapsed = collapse-Change build_diff session now candidates s in
      let claimed = mark_claimed-Change session now (event_ids candidates) lifecycle _ in
      let both = then-Change session collapsed claimed in
      let store =
        mark_claimed now session (event_ids candidates) lifecycle
          (collapse_net_for_claim build_diff now session candidates s) in
      let exact =
        subst (λ g. Change session g (hidden_ids candidates ++ event_ids candidates) s store)
          (append-nil (hidden_ids candidates)) both in
      elim (Bool-cases is_recap) [
        | inl r ↦ rw r (same_rows session exact (recap-kept _).0 (recap-kept _).1)
        | inr r ↦ rw r exact
      ]

-- What the collapse hides is among the candidates.
includes-map-keep :
    (p : MonitorEvent → Bool) (cs : List MonitorEvent) (k : Text)
    → (includes (event_ids (keep p cs)) k || includes (event_ids cs) k) ≡ includes (event_ids cs) k
includes-map-keep p [] k = refl
includes-map-keep p (c ∷ cs) k = ground (arith, includes-map-keep p cs k)

hidden-candidates :
    (cs : List MonitorEvent) (k : Text)
    → (includes (hidden_ids cs) k || includes (event_ids cs) k) ≡ includes (event_ids cs) k
hidden-candidates cs k =
    elim (Bool-cases (is_empty (compute_net_collapse_view cs).net_group_size_by_key)) [
      | inl e ↦ rw e
      | inr e ↦ let (p, same) = suppressed-keep cs in rw (e, same) (includes-map-keep p cs k)
    ]

taken_lem :
    (session other : Text) (cs : List MonitorEvent) (e : MonitorEvent)
    → is_left session other (hidden_ids cs ++ event_ids cs) e
      ≡ is_left session other (event_ids cs) e
taken_lem session other cs e =
    rw (any-append (λ j. text_eq j e.id) (hidden_ids cs) (event_ids cs), hidden-candidates cs e.id)

pub decide-session :
    (now : ℕ) (session : Text) (lifecycle : DeliveryLifecycle) (max_events : Option ℕ) (v : View)
    (d : DeliveryDecision)
    → decide_delivery now session lifecycle max_events v ≡ some d
    → (d.session_id ≡ session) × (d.claim.lifecycle ≡ lifecycle)
unfolding decide_delivery decide_high decide_reminder decide_recap
decide-session now session turn_interruptible max_events v d e = ground arith
decide-session now session turn_idle max_events v d e = ground arith
decide-session now session post_compact max_events v d e = ground arith

pub touch-pending :
    (now : ℕ) (session other : Text) (urgency : Option Urgency) (s : Store)
    → pending_events_for_session other urgency (touch_session now session s)
      ≡ pending_events_for_session other urgency s
unfolding touch_session pending_events_for_session select_events
touch-pending now session other urgency s = refl

module _ (build_diff : Text → Text → Option Text → Text) (now : ℕ) (session : Text) where
  -- The pending events after the writes of a claim.
  pub apply-pending :
      (candidates : List MonitorEvent) (is_recap : Bool) (lifecycle : DeliveryLifecycle) (s : Store)
      (other : Text) (urgency : Option Urgency)
      → pending_events_for_session other urgency
          (apply_to_store build_diff now session candidates is_recap lifecycle s)
        ≡ keep
            (is_left session other (event_ids candidates))
            (pending_events_for_session other urgency s)
  apply-pending candidates is_recap lifecycle s other urgency =
      pending-change (apply_to_store-Change build_diff now session candidates is_recap lifecycle s)
        other urgency
      ∙ keep_cong _ _ (taken_lem session other candidates)
          (pending_events_for_session other urgency s)

  -- The store after `claimDelivery`.
  pub claim-store :
      (lifecycle : DeliveryLifecycle) (max_events : Option ℕ) (rt : Runtime) (d : DeliveryDecision)
      → decided now session lifecycle max_events rt ≡ some d
      → (claim_delivery build_diff now session lifecycle max_events rt).1.view.store
        ≡ apply_to_store build_diff now session d.candidates d.is_recap lifecycle
            (touch_session now session rt.view.store)
  unfolding claim_delivery apply_delivery refresh_hook_state prune
  claim-store lifecycle max_events rt d e =
      let same =
        decide-session now session lifecycle max_events (touched now session rt).view d e in
      rw (e, same.0, same.1) refl

  -- A claim that decides to deliver takes its candidates, by id, from the pending events of its
  -- session, of every urgency, and nothing else; the pending events of every other session stay as they were.
  pub claim_consumes :
      (lifecycle : DeliveryLifecycle) (max_events : Option ℕ) (rt : Runtime) (d : DeliveryDecision)
      (other : Text) (urgency : Option Urgency)
      → decided now session lifecycle max_events rt ≡ some d
      → pending_events_for_session other urgency
          (claim_delivery build_diff now session lifecycle max_events rt).1.view.store
        ≡ keep
            (is_left session other (event_ids d.candidates))
            (pending_events_for_session other urgency rt.view.store)
  claim_consumes lifecycle max_events rt d other urgency e =
      ap (pending_events_for_session other urgency) (claim-store lifecycle max_events rt d e)
      ∙ apply-pending d.candidates d.is_recap lifecycle (touch_session now session rt.view.store)
          other urgency
      ∙ ap (keep (is_left session other (event_ids d.candidates)))
          (touch-pending now session other urgency rt.view.store)

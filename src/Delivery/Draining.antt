-- ===== src/Delivery/Draining.antt =====
-- Claims at the points of a turn use the pending events up: each one that decides to deliver takes
-- at least one event.
use agent_monitors.Prelude.{
  ℕ, zero, suc, ◌≤◌, ◌<◌, ◌≡◌, refl, subst, inl, inr, Bool, true, false, ◌&&◌, Option, none, some,
  List, [], ◌∷◌, Text, text_eq, text_eq_refl, keep, length, length-keep-le, arith, Option-cases, In,
}
use agent_monitors.Event.{Urgency, low, normal, high, MonitorEvent}
use agent_monitors.Store.{
  Store, DeliveryLifecycle, pending_events_for_session, is_pending, matches_urgency,
}
use agent_monitors.Store.Change.{is_left, pending_state}
use agent_monitors.Store.Members.{select_events_iff, known_id}
use agent_monitors.Reservations.{event_ids}
use agent_monitors.Delivery.{DeliveryDecision, View}
use agent_monitors.Delivery.Ops.{Runtime, touched, decided, claim_delivery}
use agent_monitors.Delivery.Surfacing.{is_turn, decided-In}
use agent_monitors.Delivery.Claiming.{claim_consumes, touch-pending}
use agent_monitors.Delivery.Deciding.{IsTakeable, decide_takes}

-- A pending event of one urgency is a pending event.
pending_any :
    (session : Text) (u : Urgency) (s : Store) (e : MonitorEvent)
    → In e (pending_events_for_session session (some u) s)
    → In e (pending_events_for_session session none s)
unfolding pending_events_for_session
pending_any session u s e i =
    let d = (select_events_iff (is_pending session (some u)) s e).0 i in
    (select_events_iff (is_pending session none) s e).1 record {
      row = d.row;
      stored = d.stored;
      event = d.event;
      joined = d.joined;
      passes =
          weaken (text_eq d.row.session_id session) (matches_urgency (some u) e)
            (pending_state d.row) d.passes;
    }
  where
    weaken : (a b c : Bool) → ((a && b) && c) ≡ true → ((a && true) && c) ≡ true
    weaken a b c h = ground arith

length-keep-lt :
    (p : MonitorEvent → Bool) (e : MonitorEvent) (xs : List MonitorEvent)
    → In e xs
    → p e ≡ false
    → length (keep p xs) < length xs
length-keep-lt p e [] i h = elim i [ ]
length-keep-lt p e (x ∷ xs) (inl q) h =
    let out : p x ≡ false = subst (λ y. p y ≡ false) q h in
    rw out (omega (arith, length-keep-le p xs))
length-keep-lt p e (x ∷ xs) (inr i) h = ground (arith, length-keep-lt p e xs i h)

takeable_pending :
    (now : ℕ) (session : Text) (v : View) (e : MonitorEvent)
    → IsTakeable now session v e
    → In e (pending_events_for_session session none v.store)
takeable_pending now session v e (inl h) = pending_any session high v.store e h.0.0
takeable_pending now session v e (inr (inl n)) = pending_any session normal v.store e n.0
takeable_pending now session v e (inr (inr l)) = pending_any session low v.store e l.0

module _ (build_diff : Text → Text → Option Text → Text) (now : ℕ) (session : Text)
    (lifecycle : DeliveryLifecycle) (max_events : Option ℕ) where
  claim_shrinks :
      (rt : Runtime) (d : DeliveryDecision)
      → is_turn lifecycle ≡ true
      → decided now session lifecycle max_events rt ≡ some d
      → length (
          pending_events_for_session session none
            (claim_delivery build_diff now session lifecycle max_events rt).1.view.store)
        < length (pending_events_for_session session none rt.view.store)
  claim_shrinks rt d t h =
      let v = (touched now session rt).view in
      let c = decided-In now session max_events v lifecycle d t h in
      let e = c.0.0 in
      let takes = decide_takes now session v e lifecycle max_events d h c.1 c.0.1 in
      let pending : In e (pending_events_for_session session none rt.view.store) =
        subst (In e) (touch-pending now session session none rt.view.store)
          (takeable_pending now session v e takes) in
      let gone : is_left session session (event_ids d.candidates) e ≡ false =
        rw (text_eq_refl session, known_id e d.candidates c.0.1) refl in
      rw (claim_consumes build_diff now session lifecycle max_events rt d session none h) (
        length-keep-lt (is_left session session (event_ids d.candidates)) e
          (pending_events_for_session session none rt.view.store) pending gone)

  -- A host's claims at one point of a turn, until one delivers nothing.
  pub drain : ℕ → Runtime → Runtime
  drain zero rt = rt
  drain (suc fuel) rt = elim (decided now session lifecycle max_events rt) [
    | none ↦ rt
    | some d ↦ drain fuel (claim_delivery build_diff now session lifecycle max_events rt).1
  ]

  -- At a point of a turn, as many claims as the session has pending events suffice to leave nothing
  -- that a further claim, at the same time and with the same limit, would deliver.
  pub drain_ends :
      (fuel : ℕ) (rt : Runtime)
      → is_turn lifecycle ≡ true
      → length (pending_events_for_session session none rt.view.store) ≤ fuel
      → decided now session lifecycle max_events (drain fuel rt) ≡ none
  unfolding drain
  drain_ends zero rt t h = elim (Option-cases (decided now session lifecycle max_events rt)) [
    | inl n ↦ n
    | inr (d, e) ↦ absurd (omega (arith, claim_shrinks rt d t e))
  ]
  drain_ends (suc fuel) rt t h = elim (Option-cases (decided now session lifecycle max_events rt)) [
    | inl n ↦ rw (n, drain) n
    | inr (d, e) ↦
        rw (e, drain)
          (drain_ends fuel (claim_delivery build_diff now session lifecycle max_events rt).1 t
            (omega (arith, claim_shrinks rt d t e)))
  ]

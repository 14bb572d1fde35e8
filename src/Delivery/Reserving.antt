-- ===== src/Delivery/Reserving.antt =====
-- Reserve, then commit or release: a reservation hides what a claim would take, its commit writes
-- what the claim would write, and its release or expiry gives the events back.
use agent_monitors.Prelude.{
  ℕ, ◌+◌, ◌≤◌, ◌<◌, ◌≡◌, refl, sym, ap, ◌∙◌, true, ◌&&◌, ◌||◌, not, Option, none, some, List, [],
  ◌∷◌, Text, text_eq, includes, get, put, get-put, delete, text_eq_refl, keep, arith, if◌then◌else◌,
  keep_cong, keep-keep, keep-All, All-universal,
}
use agent_monitors.Event.{MonitorEvent, Urgency, is_empty}
use agent_monitors.Store.{DeliveryLifecycle, touch_session, pending_events_for_session}
use agent_monitors.Reservations.{
  Plan, Registry, event_ids, add, take_plan, remove, default_delivery_reservation_ttl_ms,
}
use agent_monitors.Reservations.Leases.{
  leased, pruned, leased-put, leased-pruned, get-pruned, get-pruned-none, delete-put, delete-pruned,
}
use agent_monitors.Delivery.{DeliveryClaim, DeliveryDecision, View, pending_for_claim}
use agent_monitors.Delivery.Ops.{
  Runtime, touched, decided, after_reads, register, apply_to_store, apply_delivery, apply_plan,
  refresh_hook_state, refresh_removed, prune, reserve_delivery, commit_delivery, release_delivery,
}
use agent_monitors.Delivery.Claiming.{decide-session, touch-pending}

-- Without the shortcut for an empty lease.
pub pending_for_claim_lem :
    (now : ℕ) (session : Text) (urgency : Option Urgency) (v : View)
    → pending_for_claim now session urgency v
      ≡ keep
          (λ e. not (includes (leased now session v.reservations) e.id))
          (pending_events_for_session session urgency v.store)
unfolding pending_for_claim
pending_for_claim_lem now session urgency v = go (leased now session v.reservations)
  where
    pending : List MonitorEvent
    pending = pending_events_for_session session urgency v.store

    go :
        (ids : List Text)
        → (if is_empty ids then pending else keep (λ e. not (includes ids e.id)) pending)
          ≡ keep (λ e. not (includes ids e.id)) pending
    go [] = sym (keep-All (λ e. true) pending (All-universal _ (λ e. refl) pending))
    go (i ∷ ids) = refl

-- The plan as `add` registers it.
abbrev pub registered : ℕ → DeliveryDecision → Plan DeliveryClaim
registered now d = record {
  session_id = d.session_id;
  candidates = d.candidates;
  is_recap = d.is_recap;
  claim = d.claim;
  expires_at = now + default_delivery_reservation_ttl_ms;
}

abbrev without : Text → Runtime → Runtime
without reservation rt = record rt {
  view = record rt.view { reservations = delete reservation rt.view.reservations };
}

module _ (build_diff : Text → Text → Option Text → Text) (later : ℕ) (reservation : Text)
    (rt : Runtime) where
  take_live :
      (p : Plan DeliveryClaim)
      → get reservation rt.view.reservations ≡ some p
      → later < p.expires_at
      → (take_plan later reservation rt.view.reservations).0 ≡ some p
  unfolding take_plan
  take_live p e h = ground arith

  take_expired :
      (p : Plan DeliveryClaim)
      → get reservation rt.view.reservations ≡ some p
      → p.expires_at ≤ later
      → (take_plan later reservation rt.view.reservations).0 ≡ none
  unfolding take_plan
  take_expired p e h = ground arith

  commit_taken :
      (o : Option (Plan DeliveryClaim))
      → (take_plan later reservation rt.view.reservations).0 ≡ o
      → commit_delivery build_diff later reservation rt
        ≡ apply_plan build_diff later o (without reservation rt)
  unfolding commit_delivery take_plan
  commit_taken o e = ap (λ o. apply_plan build_diff later o (without reservation rt)) e

module _ (now : ℕ) (reservation session : Text) (lifecycle : DeliveryLifecycle)
    (max_events : Option ℕ) (rt : Runtime) (d : DeliveryDecision)
    (decision : decided now session lifecycle max_events rt ≡ some d)
    (fresh : get reservation rt.view.reservations ≡ none) where
  abbrev reserved : Runtime
  reserved = (reserve_delivery now reservation session lifecycle max_events rt).1

  same_session : d.session_id ≡ session
  same_session =
      (decide-session now session lifecycle max_events (touched now session rt).view d decision).0

  abbrev table : Registry DeliveryClaim
  table = put reservation (registered now d) (pruned now session rt.view.reservations)

  registered_runtime :
      reserve_delivery now reservation session lifecycle max_events rt
      ≡ register now reservation (some d) (after_reads now session rt)
  unfolding reserve_delivery
  registered_runtime = ap (λ o. register now reservation o (after_reads now session rt)) decision

  reserved-store : reserved.view.store ≡ touch_session now session rt.view.store
  unfolding refresh_hook_state prune
  reserved-store = ap (λ r. r.1.view.store) registered_runtime

  reserved-table : reserved.view.reservations ≡ pruned now session table
  unfolding refresh_hook_state prune add
  reserved-table =
      ap (λ r. r.1.view.reservations) registered_runtime
      ∙ ap (λ owner. pruned now owner table) same_session

  missing : get reservation (pruned now session rt.view.reservations) ≡ none
  missing = get-pruned-none now session reservation rt.view.reservations fresh

  -- What is leased after the reservation, at a later time within its lifetime.
  leased-after :
      (later : ℕ) (other k : Text)
      → now ≤ later
      → later < now + default_delivery_reservation_ttl_ms
      → includes (leased later other reserved.view.reservations) k ≡ (
          includes (leased later other rt.view.reservations) k
          || (text_eq session other && includes (event_ids d.candidates) k))
  leased-after later other k h l =
      rw
        (
          reserved-table,
          leased-pruned now later session other table h,
          leased-put later other reservation k (registered now d)
              (pruned now session rt.view.reservations) missing,
          leased-pruned now later session other rt.view.reservations h,
          same_session,
        )
        (ground arith)

  -- While a reservation, made under an unused id, lives, it takes its candidates from what its session can claim, and
  -- nothing else; other sessions can claim what they could before.
  pub reserve_hides :
      (later : ℕ) (other : Text) (urgency : Option Urgency)
      → now ≤ later
      → later < now + default_delivery_reservation_ttl_ms
      → pending_for_claim later other urgency reserved.view
        ≡ keep
            (λ e. not (text_eq session other && includes (event_ids d.candidates) e.id))
            (pending_for_claim later other urgency rt.view)
  reserve_hides later other urgency h l =
      rw
        (
          pending_for_claim_lem later other urgency reserved.view,
          pending_for_claim_lem later other urgency rt.view,
          keep-keep,
          reserved-store,
          touch-pending now session other urgency rt.view.store,
        )
        (keep_cong (λ e. not (includes (leased later other reserved.view.reservations) e.id))
          (λ e.
            not (includes (leased later other rt.view.reservations) e.id)
            && not (text_eq session other && includes (event_ids d.candidates) e.id))
          (λ e. ground (arith, leased-after later other e.id h l))
          (pending_events_for_session other urgency rt.view.store))

  found : get reservation reserved.view.reservations ≡ some (registered now d)
  found = rw reserved-table (
      get-pruned now session reservation (registered now d) table (rw (get-put, text_eq_refl))
        (omega arith))

  -- Committed within its lifetime, a reservation that was made under an unused id returns the claim
  -- that was rendered, and writes
  -- to the store what a claim of the same decision writes, at the time of the commit.
  pub reserve_commit :
      (build_diff : Text → Text → Option Text → Text) (later : ℕ)
      → now ≤ later
      → later < now + default_delivery_reservation_ttl_ms
      → ((commit_delivery build_diff later reservation reserved).0 ≡ some d.claim)
        × ((commit_delivery build_diff later reservation reserved).1.view.store
            ≡ apply_to_store build_diff later session d.candidates d.is_recap lifecycle
                (touch_session now session rt.view.store))
  unfolding apply_delivery refresh_hook_state prune
  reserve_commit build_diff later h l =
      let path =
        commit_taken build_diff later reservation reserved (some (registered now d))
          (take_live build_diff later reservation reserved (registered now d) found l) in
      (
        ap (λ r. r.0) path,
        ap (λ r. r.1.view.store) path
            ∙ rw
                (
                  reserved-store,
                  same_session,
                  (decide-session now session lifecycle max_events (touched now session rt).view d
                      decision).1,
                )
                refl,
      )

  -- After the lifetime of a reservation that was made under an unused id, its commit returns nothing and writes nothing.
  pub reserve_expires :
      (build_diff : Text → Text → Option Text → Text) (later : ℕ)
      → now + default_delivery_reservation_ttl_ms ≤ later
      → ((commit_delivery build_diff later reservation reserved).0 ≡ none)
        × ((commit_delivery build_diff later reservation reserved).1.view.store
            ≡ touch_session now session rt.view.store)
  reserve_expires build_diff later l =
      let path =
        commit_taken build_diff later reservation reserved none
          (take_expired build_diff later reservation reserved (registered now d) found l) in
      (ap (λ r. r.0) path, ap (λ r. r.1.view.store) path ∙ reserved-store)

  released_runtime :
      (released : ℕ)
      → release_delivery released reservation reserved
        ≡ refresh_hook_state released session (without reservation reserved)
  unfolding release_delivery remove
  released_runtime released =
      ap (λ o. refresh_removed released o (without reservation reserved)) found
      ∙ ap (λ owner. refresh_hook_state released owner (without reservation reserved)) same_session

  released-table :
      (released : ℕ)
      → (release_delivery released reservation reserved).view.reservations
        ≡ pruned released session (pruned now session (pruned now session rt.view.reservations))
  unfolding refresh_hook_state prune
  released-table released =
      ap (λ r. r.view.reservations) (released_runtime released)
      ∙ ap (λ m. pruned released session (delete reservation m)) reserved-table
      ∙ ap (pruned released session) (
          delete-pruned now session reservation table
          ∙ ap (pruned now session) (
              delete-put reservation (registered now d) (pruned now session rt.view.reservations)
                missing))

  released-store :
      (released : ℕ)
      → (release_delivery released reservation reserved).view.store
        ≡ touch_session now session rt.view.store
  unfolding refresh_hook_state prune
  released-store released = ap (λ r. r.view.store) (released_runtime released) ∙ reserved-store

  -- Released, a reservation that was made under an unused id gives its candidates back: every session can claim at any later time
  -- what it could claim then had nothing been reserved.
  pub reserve_release :
      (released later : ℕ) (other : Text) (urgency : Option Urgency)
      → now ≤ later
      → released ≤ later
      → pending_for_claim later other urgency (release_delivery released reservation reserved).view
        ≡ pending_for_claim later other urgency rt.view
  reserve_release released later other urgency h l =
      rw
        (
          pending_for_claim_lem later other urgency
              (release_delivery released reservation reserved).view,
          pending_for_claim_lem later other urgency rt.view,
          released-store released,
          released-table released,
          leased-pruned released later session other
              (pruned now session (pruned now session rt.view.reservations)) l,
          leased-pruned now later session other (pruned now session rt.view.reservations) h,
          leased-pruned now later session other rt.view.reservations h,
          touch-pending now session other urgency rt.view.store,
        )
        refl

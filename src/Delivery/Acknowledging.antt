-- ===== src/Delivery/Acknowledging.antt =====
-- What `acknowledgeSession` takes from the unread and the pending events.
use agent_monitors.Prelude.{
  ℕ, ◌≡◌, refl, sym, ap, ◌∙◌, inl, inr, Bool, true, not, Option, none, some, List, [], ◌∷◌, Text,
  text_eq_refl, text_eq_iff, includes, keep, arith, In, Bool-cases,
}
use agent_monitors.Event.{MonitorEvent, Urgency}
use agent_monitors.Store.{
  Store, acknowledge_events, unread_events_for_session, pending_events_for_session,
}
use agent_monitors.Store.Change.{
  Change, unchanged, update-Change, is_left, unread-change, pending-change,
}
use agent_monitors.Reservations.{event_ids}
use agent_monitors.Reservations.Leases.{leased}
use agent_monitors.Delivery.Ops.{
  Runtime, acknowledge_session, ack_ids, unleased_unread, refresh_hook_state, prune,
}

acknowledge-Change :
    (now : ℕ) (session : Text) (ids : List Text) (s : Store)
    → Change session ids ids s (acknowledge_events now session ids s)
unfolding acknowledge_events
acknowledge-Change now session [] s = unchanged session s s refl refl
acknowledge-Change now session (i ∷ ids) s =
    update-Change session (i ∷ ids) (i ∷ ids) (i ∷ ids)
      (λ r. record r { acknowledged_at = some now; updated_at = now }) s (λ r. refl) (λ r. refl)
      (λ r. ground arith) (λ r. ground arith)

acknowledged-store :
    (now : ℕ) (session : Text) (ids : Option (List Text)) (rt : Runtime)
    → (acknowledge_session now session ids rt).view.store
      ≡ acknowledge_events now session (ack_ids now session ids rt.view) rt.view.store
unfolding acknowledge_session refresh_hook_state prune
acknowledged-store now session ids rt = refl

-- An acknowledgement takes its ids, the given ones or the unread ones that are not leased, from
-- the session's unread and pending events, and nothing from any other session's.
pub acknowledge_removes :
    (now : ℕ) (session : Text) (ids : Option (List Text)) (rt : Runtime) (other : Text)
    (urgency : Option Urgency)
    → (unread_events_for_session other urgency (acknowledge_session now session ids rt).view.store
        ≡ keep
            (is_left session other (ack_ids now session ids rt.view))
            (unread_events_for_session other urgency rt.view.store))
      × (pending_events_for_session other urgency
            (acknowledge_session now session ids rt).view.store
          ≡ keep
              (is_left session other (ack_ids now session ids rt.view))
              (pending_events_for_session other urgency rt.view.store))
acknowledge_removes now session ids rt other urgency =
    let change = acknowledge-Change now session (ack_ids now session ids rt.view) rt.view.store in
    let store = acknowledged-store now session ids rt in
    (
      ap (unread_events_for_session other urgency) store ∙ unread-change change other urgency,
      ap (pending_events_for_session other urgency) store ∙ pending-change change other urgency,
    )

module _ (q : Text → Bool) where
  kept_id-test :
      (es : List MonitorEvent) (k : Text)
      → includes (event_ids (keep (λ e. q e.id) es)) k ≡ true
      → q k ≡ true
  kept_id-test [] k h = ground arith
  kept_id-test (e ∷ es) k h = ground (arith, kept_id-test es k, text_eq_iff e.id k)

  kept_id :
      (es : List MonitorEvent) (e : MonitorEvent)
      → In e es
      → q e.id ≡ true
      → includes (event_ids (keep (λ e. q e.id) es)) e.id ≡ true
  kept_id [] e i h = elim i [ ]
  kept_id (f ∷ es) e (inl i) h = rw (sym i, h, text_eq_refl) refl
  kept_id (f ∷ es) e (inr i) h = ground (arith, kept_id es e i h)

  kept_ids :
      (es : List MonitorEvent) (e : MonitorEvent)
      → In e es
      → includes (event_ids (keep (λ e. q e.id) es)) e.id ≡ q e.id
  kept_ids es e i = elim (Bool-cases (q e.id)) [
    | inl h ↦ rw h (kept_id es e i h)
    | inr h ↦ ground (arith, kept_id-test es e.id)
  ]

keep_cong-In :
    (p q : MonitorEvent → Bool) (es : List MonitorEvent)
    → ((e : MonitorEvent) → In e es → p e ≡ q e)
    → keep p es ≡ keep q es
keep_cong-In p q [] h = refl
keep_cong-In p q (e ∷ es) h = rw (h e (inl refl), keep_cong-In p q es (λ f i. h f (inr i))) refl

-- After an acknowledgement without ids, exactly the leased unread events are still unread.
pub acknowledge_all-leased :
    (now : ℕ) (session : Text) (rt : Runtime)
    → unread_events_for_session session none (acknowledge_session now session none rt).view.store
      ≡ keep
          (λ e. includes (leased now session rt.view.reservations) e.id)
          (unread_events_for_session session none rt.view.store)
unfolding unleased_unread
acknowledge_all-leased now session rt =
    let unread = unread_events_for_session session none rt.view.store in
    let ids = leased now session rt.view.reservations in
    (acknowledge_removes now session none rt session none).0
    ∙ keep_cong-In (is_left session session (unleased_unread now session rt.view))
        (λ e. includes ids e.id) unread
        (λ e i.
          ground (arith, kept_ids (λ k. not (includes ids k)) unread e i, text_eq_refl session))

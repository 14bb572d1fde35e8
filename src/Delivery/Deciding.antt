-- ===== src/Delivery/Deciding.antt =====
-- What a decision takes: only pending events that no reservation leases, and high-urgency ones
-- only when they have settled.
use agent_monitors.Prelude.{
  ℕ, ◌≡◌, sym, subst, ◌⊎◌, inl, inr, true, false, ◌&&◌, not, Option, none, some, Text, includes,
  arith, Bool-cases, In, In-of_In-keep, true-false,
}
use agent_monitors.Event.{Urgency, low, normal, high, MonitorEvent, is_empty}
use agent_monitors.Store.{
  DeliveryLifecycle, turn_interruptible, turn_idle, post_compact, pending_events_for_session,
  unread_events_for_session,
}
use agent_monitors.Store.Members.{In-of_append}
use agent_monitors.Reservations.Leases.{leased}
use agent_monitors.Delivery.{
  DeliveryDecision, View, pending_for_claim, is_settled, settled_high, reminder_due,
  surfaced_candidates, decide_high, decide_reminder, decide_recap, decide_delivery,
}
use agent_monitors.Delivery.Reserving.{pending_for_claim_lem}

pub some_injective : (d e : DeliveryDecision) → some d ≡ some e → d ≡ e
some_injective d e h = ground arith

pub none-some : (d : DeliveryDecision) → none ≡ some d → ⊥
none-some d h = ground arith

-- Pending in a band, and free of every lease of the session.
abbrev pub IsClaimable : ℕ → Text → View → Urgency → MonitorEvent → Type 0
IsClaimable now session v u e =
    In e (pending_events_for_session session (some u) v.store)
    × (includes (leased now session v.reservations) e.id ≡ false)

-- What may be taken without a recap.
abbrev pub IsTakeable : ℕ → Text → View → MonitorEvent → Type 0
IsTakeable now session v e =
    (IsClaimable now session v high e × (is_settled now e ≡ true))
    ⊎ (IsClaimable now session v normal e ⊎ IsClaimable now session v low e)

module _ (now : ℕ) (session : Text) (v : View) (e : MonitorEvent) where
  claimable :
      (u : Urgency)
      → In e (pending_for_claim now session (some u) v)
      → IsClaimable now session v u e
  claimable u i =
      let (among, free) =
        In-of_In-keep (λ f. not (includes (leased now session v.reservations) f.id)) e
          (pending_events_for_session session (some u) v.store)
          (subst (In e) (pending_for_claim_lem now session (some u) v) i) in
      (among, ground arith)

  settled-IsTakeable :
      (max_events : Option ℕ)
      → In e (surfaced_candidates (settled_high now session v) max_events)
      → IsTakeable now session v e
  unfolding surfaced_candidates settled_high
  settled-IsTakeable max_events i =
      let settled = (In-of_In-keep _ e (settled_high now session v) i).0 in
      let (pending, old) =
        In-of_In-keep (is_settled now) e (pending_for_claim now session (some high) v) settled in
      inl (claimable high pending, old)

  high-IsTakeable :
      (max_events : Option ℕ)
      → In e (decide_high now session max_events v).candidates
      → IsTakeable now session v e
  unfolding decide_high
  high-IsTakeable max_events i = elim (Bool-cases (reminder_due now session normal v)) [
    | inl b ↦
        elim (In-of_append e (surfaced_candidates (settled_high now session v) max_events)
          (pending_for_claim now session (some normal) v) (rw b at i)) [
            | inl s ↦ settled-IsTakeable max_events s
            | inr n ↦ inr (inl (claimable normal n))
          ]
    | inr b ↦ settled-IsTakeable max_events (rw b at i)
  ]

  -- An event that a decision other than a recap takes is pending and not leased, and it is of the
  -- normal band, of the low band, or of the high band and settled.
  pub decide_takes :
      (lifecycle : DeliveryLifecycle) (max_events : Option ℕ) (d : DeliveryDecision)
      → decide_delivery now session lifecycle max_events v ≡ some d
      → d.is_recap ≡ false
      → In e d.candidates
      → IsTakeable now session v e
  unfolding decide_delivery decide_reminder decide_recap
  decide_takes turn_interruptible max_events d h r i =
      elim (Bool-cases (not (is_empty (settled_high now session v)))) [
        | inl b ↦
            let same = some_injective (decide_high now session max_events v) d (rw b at h) in
            high-IsTakeable max_events (subst (λ c. In e c.candidates) (sym same) i)
        | inr b ↦
            elim (Bool-cases (
              reminder_due now session normal v
              && is_empty (pending_for_claim now session (some high) v))) [
                | inl c ↦
                    let same =
                      some_injective (decide_reminder now session turn_interruptible normal v) d
                        (rw (b, c) at h) in
                    inr (inl (claimable normal (subst (λ c. In e c.candidates) (sym same) i)))
                | inr c ↦ absurd (none-some d (rw (b, c) at h))
              ]
      ]
  decide_takes turn_idle max_events d h r i = elim (Bool-cases (reminder_due now session low v)) [
    | inl c ↦
        let same = some_injective (decide_reminder now session turn_idle low v) d (rw c at h) in
        inr (inr (claimable low (subst (λ c. In e c.candidates) (sym same) i)))
    | inr c ↦ absurd (none-some d (rw c at h))
  ]
  decide_takes post_compact max_events d h r i =
      elim (Bool-cases (not (is_empty (unread_events_for_session session none v.store)))) [
        | inl c ↦
            let same = some_injective (decide_recap session v) d (rw c at h) in
            absurd (true-false (subst (λ c. c.is_recap ≡ false) (sym same) r))
        | inr c ↦ absurd (none-some d (rw c at h))
      ]

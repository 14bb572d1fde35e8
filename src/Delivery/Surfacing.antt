-- ===== src/Delivery/Surfacing.antt =====
-- A decision at a point of a turn has something to take: of every group the newest event survives,
-- so a settled event surfaces another or itself.
use agent_monitors.Prelude.{
  ℕ, zero, suc, ◌<◌, ◌≡◌, refl, sym, ap, subst, ◌∙◌, inl, inr, Bool, true, false, Option, none,
  some, List, [], ◌∷◌, map, Text, text_eq, text_eq_iff, text_eq_refl, includes, keep, take, get,
  length, arith, Bool-cases, In, In-keep, In-of_In-keep,
}
use agent_monitors.Event.{
  Urgency, low, normal, high, MonitorEvent, is_empty, compute_net_collapse_view, survives,
  net_collapse_group_key, sort_events,
}
use agent_monitors.Event.Order.{sort-IsSorted, In-of_In-sort}
use agent_monitors.Event.Newest.{IsNewest-get, newest_of, delivered-keep}
use agent_monitors.Store.{DeliveryLifecycle, turn_interruptible, turn_idle, post_compact}
use agent_monitors.Store.Members.{In-append_left}
use agent_monitors.Delivery.{
  DeliveryDecision, View, pending_for_claim, settled_high, reminder_due, surfaced_candidates, limit,
  decide_high, decide_reminder, decide_delivery,
}
use agent_monitors.Delivery.Deciding.{some_injective, none-some}

survives_outside :
    (m : List (Text × MonitorEvent)) (e : MonitorEvent)
    → get (net_collapse_group_key e) m ≡ none
    → survives m e ≡ true
unfolding survives
survives_outside m e h = rw (h, survives)

survives_own :
    (m : List (Text × MonitorEvent)) (e : MonitorEvent)
    → get (net_collapse_group_key e) m ≡ some e
    → survives m e ≡ true
unfolding survives
survives_own m e h = rw (h, survives) (text_eq_refl e.id)

-- The newest event of a group survives, so some event does.
some_survivor :
    (cs : List MonitorEvent) (e : MonitorEvent)
    → In e cs
    → (n : MonitorEvent) × In n (compute_net_collapse_view cs).delivered
some_survivor cs e i =
    elim (IsNewest-get (net_collapse_group_key e) [] (sort_events cs) (sort-IsSorted cs)) [
      | inl (outside, _) ↦
          let kept =
            survives_outside (newest_of cs) e (outside ∙ nothing (net_collapse_group_key e)) in
          (e, rw (delivered-keep cs) (In-keep (survives (newest_of cs)) e cs i kept))
      | inr (n, found, newest) ↦
          let kept =
            survives_own (newest_of cs) n
              (subst (λ k. get k (newest_of cs) ≡ some n) (sym newest.0.1) found) in
          (
            n,
            rw (delivered-keep cs)
                (In-keep (survives (newest_of cs)) n cs (In-of_In-sort n cs newest.1) kept),
          )
    ]
  where
    nothing : (k : Text) → get {V = MonitorEvent} k [] ≡ none
    nothing k = unfold get in refl

limit_pos : (n : ℕ) (m : Option ℕ) → 0 < n → 0 < limit n m
limit_pos n none h = h
limit_pos n (some m) h = omega arith

In-take :
    (x : MonitorEvent) (xs : List MonitorEvent) (n : ℕ)
    → In x xs
    → 0 < n
    → (y : MonitorEvent) × In y (take n xs) × In y xs
In-take x [] n i h = elim i [ ]
In-take x (z ∷ zs) zero i h = absurd (omega arith)
In-take x (z ∷ zs) (suc n) i h = (z, inl refl, inl refl)

has_length : (x : MonitorEvent) (xs : List MonitorEvent) → In x xs → 0 < length xs
has_length x [] i = elim i [ ]
has_length x (y ∷ ys) i = omega arith

key_listed :
    (x : MonitorEvent) (xs : List MonitorEvent)
    → In x xs
    → includes (map net_collapse_group_key xs) (net_collapse_group_key x) ≡ true
key_listed x [] i = elim i [ ]
key_listed x (y ∷ ys) (inl e) =
    let hit : text_eq (net_collapse_group_key y) (net_collapse_group_key x) ≡ true =
      (text_eq_iff _ _).1 (ap net_collapse_group_key (sym e)) in
    rw hit refl
key_listed x (y ∷ ys) (inr i) = ground (arith, key_listed x ys i)

some_surfaced :
    (settled : List MonitorEvent) (max_events : Option ℕ) (e : MonitorEvent)
    → In e settled
    → (n : MonitorEvent) × In n (surfaced_candidates settled max_events)
unfolding surfaced_candidates
some_surfaced settled max_events e i =
    let s = some_survivor settled e i in
    let all = (compute_net_collapse_view settled).delivered in
    let t =
      In-take s.0 all (limit (length all) max_events) s.1
        (limit_pos _ max_events (has_length s.0 all s.1)) in
    let among : In t.0 (keep (survives (newest_of settled)) settled) =
      subst (In t.0) (delivered-keep settled) t.2 in
    (
      t.0,
      In-keep _ t.0 settled (In-of_In-keep (survives (newest_of settled)) t.0 settled among).0
          (key_listed t.0 _ t.1),
    )

some_In : (xs : List MonitorEvent) → is_empty xs ≡ false → (e : MonitorEvent) × In e xs
some_In [] h = ground arith
some_In (x ∷ xs) h = (x, inl refl)

-- The points of a turn; the other is the recap after a compaction.
abbrev pub is_turn : DeliveryLifecycle → Bool
is_turn post_compact = false
is_turn _ = true

module _ (now : ℕ) (session : Text) (max_events : Option ℕ) (v : View) where
  high-In :
      is_empty (settled_high now session v) ≡ false
      → (e : MonitorEvent) × In e (decide_high now session max_events v).candidates
  unfolding decide_high
  high-In h =
      let settled = some_In (settled_high now session v) h in
      let s = some_surfaced (settled_high now session v) max_events settled.0 settled.1 in
      elim (Bool-cases (reminder_due now session normal v)) [
        | inl b ↦
            rw b (s.0, In-append_left s.0 _ (pending_for_claim now session (some normal) v) s.1)
        | inr b ↦ rw b s
      ]

  reminder-In :
      (lifecycle : DeliveryLifecycle) (u : Urgency)
      → reminder_due now session u v ≡ true
      → (e : MonitorEvent) × In e (decide_reminder now session lifecycle u v).candidates
  unfolding decide_reminder reminder_due
  reminder-In lifecycle u h = some_In (pending_for_claim now session (some u) v) (ground arith)

  -- A decision at a point of a turn has a candidate, and is no recap.
  pub decided-In :
      (lifecycle : DeliveryLifecycle) (d : DeliveryDecision)
      → is_turn lifecycle ≡ true
      → decide_delivery now session lifecycle max_events v ≡ some d
      → ((e : MonitorEvent) × In e d.candidates) × (d.is_recap ≡ false)
  unfolding decide_delivery decide_high decide_reminder
  decided-In turn_interruptible d t h = elim (Bool-cases (is_empty (settled_high now session v))) [
    | inr b ↦
        let same = some_injective (decide_high now session max_events v) d (rw b at h) in
        (
          subst (λ c. (e : MonitorEvent) × In e c.candidates) same (high-In b),
          subst (λ c. c.is_recap ≡ false) same refl,
        )
    | inl b ↦ elim (Bool-cases (reminder_due now session normal v)) [
      | inl r ↦ elim (Bool-cases (is_empty (pending_for_claim now session (some high) v))) [
        | inl n ↦
            let same =
              some_injective (decide_reminder now session turn_interruptible normal v) d
                (rw (b, r, n) at h) in
            (
              subst (λ c. (e : MonitorEvent) × In e c.candidates) same
                  (reminder-In turn_interruptible normal r),
              subst (λ c. c.is_recap ≡ false) same refl,
            )
        | inr n ↦ absurd (none-some d (rw (b, r, n) at h))
      ]
      | inr r ↦ absurd (none-some d (rw (b, r) at h))
    ]
  ]
  decided-In turn_idle d t h = elim (Bool-cases (reminder_due now session low v)) [
    | inl r ↦
        let same = some_injective (decide_reminder now session turn_idle low v) d (rw r at h) in
        (
          subst (λ c. (e : MonitorEvent) × In e c.candidates) same (reminder-In turn_idle low r),
          subst (λ c. c.is_recap ≡ false) same refl,
        )
    | inr r ↦ absurd (none-some d (rw r at h))
  ]
  decided-In post_compact d t h = ground arith

-- ===== src/Event/Newest.antt =====
-- What the `net` collapse delivers: of each object's events the newest, and every other event.
use agent_monitors.Prelude.{
  ◌≡◌, refl, sym, subst, ◌∙◌, ◌⊎◌, inl, inr, ◌↔◌, Bool, true, false, not, none, some, List, [], ◌∷◌,
  map, Text, text_eq, text_eq_iff, text_eq_refl, keep, get, put, get-put, arith, In, All, is_some,
  if◌then◌else◌, Option-cases, Bool-cases, keep-All, All-universal, in-All, In-keep, In-of_In-keep,
  All-of_In,
}
use agent_monitors.Event.{
  MonitorEvent, sort_events, collapsible, net_collapse_group_key, newest_by_object, survives,
  is_empty, compute_net_collapse_view,
}
use agent_monitors.Event.Key.{HasPlainParts, group_key_injective}
use agent_monitors.Event.Order.{
  IsBefore, IsSorted, event_leb_refl, event_leb_antisym, sort-IsSorted, In-sort, In-of_In-sort,
}

-- The event may be folded, and its group is `k`.
abbrev pub InGroup : Text → MonitorEvent → Type 0
InGroup k e = (is_some (collapsible e) ≡ true) × (net_collapse_group_key e ≡ k)

-- Of a sorted list the map keeps the last event of each group.
abbrev pub IsNewest : Text → MonitorEvent → List MonitorEvent → Type 0
IsNewest k n es = InGroup k n × In n es × All (λ e. InGroup k e → IsBefore e n) es

All-lift :
    (k : Text) (a n : MonitorEvent) (es : List MonitorEvent)
    → In n es
    → All (IsBefore a) es
    → IsBefore a n
All-lift k a n [] h b = elim h [ ]
All-lift k a n (e ∷ es) (inl h) b = ground arith
All-lift k a n (e ∷ es) (inr h) b = All-lift k a n es h b.1

pub in_group : (k : Text) (e : MonitorEvent) → InGroup k e ⊎ (InGroup k e → ⊥)
in_group k e = grind (
  arith,
  Bool-cases (is_some (collapsible e)),
  Bool-cases (text_eq (net_collapse_group_key e) k),
  text_eq_iff (net_collapse_group_key e) k,
)

-- One round of the loop.
abbrev record_newest : MonitorEvent → List (Text × MonitorEvent) → List (Text × MonitorEvent)
record_newest e m = if is_some (collapsible e) then put (net_collapse_group_key e) e m else m

record_newest_in :
    (k : Text) (e : MonitorEvent) (m : List (Text × MonitorEvent))
    → InGroup k e
    → get k (record_newest e m) ≡ some e
record_newest_in k e m h = rw (h.0, h.1, get-put, text_eq_refl)

record_newest_out :
    (k : Text) (e : MonitorEvent) (m : List (Text × MonitorEvent))
    → (InGroup k e → ⊥)
    → get k (record_newest e m) ≡ get k m
record_newest_out k e m h =
    ground
      (arith, get-put (net_collapse_group_key e) k e m, text_eq_iff (net_collapse_group_key e) k)

All-vacuous :
    (k : Text) (n : MonitorEvent) (es : List MonitorEvent)
    → All (λ e. InGroup k e → ⊥) es
    → All (λ e. InGroup k e → IsBefore e n) es
All-vacuous k n [] h = tt
All-vacuous k n (e ∷ es) h = (λ g. absurd (h.0 g), All-vacuous k n es h.1)

pub IsNewest-get :
    (k : Text) (m : List (Text × MonitorEvent)) (es : List MonitorEvent)
    → IsSorted es
    → ((get k (newest_by_object m es) ≡ get k m) × All (λ e. InGroup k e → ⊥) es)
      ⊎ ((n : MonitorEvent) × (get k (newest_by_object m es) ≡ some n) × IsNewest k n es)
unfolding newest_by_object
IsNewest-get k m [] s = inl (refl, tt)
IsNewest-get k m (e ∷ es) s = elim (IsNewest-get k (record_newest e m) es s.1) [
  | inr (n, g, isn) ↦ inr (n, g, (isn.0, inr isn.1, (λ _. All-lift k e n es isn.1 s.0, isn.2)))
  | inl (g, out) ↦ elim (in_group k e) [
    | inl isin ↦ inr (
      e,
      g ∙ record_newest_in k e m isin,
      (isin, inl refl, (λ _. event_leb_refl e, All-vacuous k e es out)),
    )
    | inr isout ↦ inl (g ∙ record_newest_out k e m isout, (isout, out))
  ]
]

-- What the primary key and the ids' alphabet give for the rows of one query.
pub record AreRows (cs : List MonitorEvent) : Type 0 where
  pub distinct : (a b : MonitorEvent) → In a cs → In b cs → a.id ≡ b.id → a ≡ b
  pub plain : (a : MonitorEvent) → In a cs → HasPlainParts a

abbrev pub newest_of : List MonitorEvent → List (Text × MonitorEvent)
newest_of cs = newest_by_object [] (sort_events cs)

survives_none :
    (newest : List (Text × MonitorEvent)) (cs : List MonitorEvent)
    → is_empty newest ≡ true
    → keep (survives newest) cs ≡ cs
unfolding survives get
survives_none [] cs h =
    keep-All (survives []) cs (All-universal (λ e. survives [] e ≡ true) (λ e. refl) cs)
survives_none (p ∷ newest) cs h = cc

-- Both returns of the function: without a group nothing is folded.
pub delivered-keep :
    (cs : List MonitorEvent)
    → (compute_net_collapse_view cs).delivered ≡ keep (survives (newest_of cs)) cs
unfolding compute_net_collapse_view
delivered-keep cs = elim (Bool-cases (is_empty (newest_of cs))) [
  | inl e ↦ rw e (sym (survives_none (newest_of cs) cs e))
  | inr e ↦ rw e
]

-- Nothing in the list is a newer event of the same object.
abbrev pub IsLatest : MonitorEvent → List MonitorEvent → Type 0
IsLatest e cs = All (λ f. InGroup (net_collapse_group_key e) f → IsBefore f e) cs

collapsible_of_key :
    (a n : MonitorEvent) (cs : List MonitorEvent)
    → AreRows cs
    → In a cs
    → In n cs
    → InGroup (net_collapse_group_key a) n
    → is_some (collapsible a) ≡ true
collapsible_of_key a n cs r ha hn g =
    elim (group_key_injective a n (r.plain a ha) (r.plain n hn) (sym g.1)) [
      | inl q ↦ ground arith
      | inr q ↦ ground arith
    ]

module _ (cs : List MonitorEvent) (e : MonitorEvent) (r : AreRows cs) (h : In e cs) where
  abbrev key : Text
  key = net_collapse_group_key e

  survives_missing :
      get key (newest_of cs) ≡ none
      → All (λ f. InGroup key f → ⊥) (sort_events cs)
      → (survives (newest_of cs) e ≡ true) × (collapsible e ≡ none)
  unfolding survives
  survives_missing g out = (
    rw (g, survives),
    elim (Option-cases (collapsible e)) [
      | inl q ↦ q
      | inr (k, q) ↦
          absurd
            (in-All (λ f. InGroup key f → ⊥) e (sort_events cs) out (In-sort e cs h) (rw q, refl))
    ],
  )

  module _ (n : MonitorEvent) (g : get key (newest_of cs) ≡ some n)
      (isn : IsNewest key n (sort_events cs)) where
    n-In : In n cs
    n-In = In-of_In-sort n cs isn.1

    IsLatest-of_survives : survives (newest_of cs) e ≡ true → IsLatest e cs
    unfolding survives
    IsLatest-of_survives s =
        let same_id : n.id ≡ e.id = (text_eq_iff n.id e.id).0 (rw (g, survives) at s) in
        let same : n ≡ e = r.distinct n e n-In h same_id in
        All-of_In (λ f. InGroup key f → IsBefore f e) cs
          λ f i q.
            subst (IsBefore f) same (
              in-All (λ f. InGroup key f → IsBefore f n) f (sort_events cs) isn.2 (In-sort f cs i)
                q)

    e_collapsible : is_some (collapsible e) ≡ true
    e_collapsible = collapsible_of_key e n cs r h n-In isn.0

    survives_of_latest : IsLatest e cs → survives (newest_of cs) e ≡ true
    unfolding survives
    survives_of_latest l =
        let after = in-All (λ f. InGroup key f → IsBefore f e) n cs l n-In isn.0 in
        let before =
          in-All (λ f. InGroup key f → IsBefore f n) e (sort_events cs) isn.2 (In-sort e cs h)
            (e_collapsible, refl) in
        rw (g, survives)
          (subst (λ i. text_eq n.id i ≡ true) (event_leb_antisym n e after before)
            (text_eq_refl n.id))

  survives_iff : (survives (newest_of cs) e ≡ true) ↔ ((collapsible e ≡ none) ⊎ IsLatest e cs)
  survives_iff = elim (IsNewest-get key [] (sort_events cs) (sort-IsSorted cs)) [
    | inl (g, out) ↦
        let m = survives_missing (g ∙ unfold get in refl) out in (λ _. inl m.1, λ _. m.0)
    | inr (n, g, isn) ↦ (
      λ s. inr (IsLatest-of_survives n g isn s),
      elim [
        | inl q ↦ absurd (let c = e_collapsible n g isn in ground arith)
        | inr l ↦ survives_of_latest n g isn l
      ],
    )
  ]

-- An event of the candidates is delivered exactly when it is outside every group, or no event of
-- its object among the candidates is newer; ids must be distinct and the key parts free of NUL.
pub delivered_iff :
    (cs : List MonitorEvent) (e : MonitorEvent)
    → AreRows cs
    → In e cs
    → In e (compute_net_collapse_view cs).delivered ↔ ((collapsible e ≡ none) ⊎ IsLatest e cs)
delivered_iff cs e r h =
    let (to, from) = survives_iff cs e r h in
    rw (delivered-keep cs) (
      λ i. to (In-of_In-keep (survives (newest_of cs)) e cs i).1,
      λ q. In-keep (survives (newest_of cs)) e cs h (from q),
    )

keep_none : (cs : List MonitorEvent) → keep (λ e. false) cs ≡ []
keep_none [] = refl
keep_none (c ∷ cs) = keep_none cs

-- What is suppressed is a part of the candidates.
pub suppressed-keep :
    (cs : List MonitorEvent)
    → (p : MonitorEvent → Bool) × ((compute_net_collapse_view cs).suppressed_ids
        ≡ map (λ e. e.id) (keep p cs))
unfolding compute_net_collapse_view
suppressed-keep cs = elim (Bool-cases (is_empty (newest_of cs))) [
  | inl e ↦ (λ _. false, rw (e, keep_none cs) refl)
  | inr e ↦ (λ f. not (survives (newest_of cs) f), rw e)
]

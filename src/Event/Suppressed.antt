-- ===== src/Event/Suppressed.antt =====
-- What the `net` collapse suppresses: the events that a newer one of their object stands for.
use agent_monitors.Prelude.{
  ◌≡◌, ◌⊎◌, refl, sym, subst, ap, inl, inr, ◌↔◌, true, false, not, List, [], ◌∷◌, map, Text,
  text_eq, text_eq_iff, text_eq_refl, keep, get, In, includes, arith, Bool-cases, In-keep,
  In-of_In-keep, Option-cases, is_some, in-All, true-false,
}
use agent_monitors.Event.{
  MonitorEvent, compute_net_collapse_view, survives, is_empty, event_leb, collapsible,
  net_collapse_group_key,
}
use agent_monitors.Event.Order.{IsBefore}
use agent_monitors.Event.Newest.{
  AreRows, InGroup, IsLatest, newest_of, in_group, delivered-keep, delivered_iff,
}

In-of_includes :
    (es : List MonitorEvent) (k : Text)
    → includes (map (λ f. f.id) es) k ≡ true
    → (f : MonitorEvent) × In f es × (f.id ≡ k)
In-of_includes [] k h = ground arith
In-of_includes (e ∷ es) k h = elim (Bool-cases (text_eq e.id k)) [
  | inl q ↦ (e, inl refl, (text_eq_iff e.id k).0 q)
  | inr q ↦ let (f, i, same) = In-of_includes es k (rw q at h) in (f, inr i, same)
]

In-includes :
    (es : List MonitorEvent) (f : MonitorEvent)
    → In f es
    → includes (map (λ f. f.id) es) f.id ≡ true
In-includes [] f i = elim i [ ]
In-includes (e ∷ es) f (inl i) = rw (sym i, text_eq_refl f.id) refl
In-includes (e ∷ es) f (inr i) = ground (arith, In-includes es f i)

suppressed_none : (cs : List MonitorEvent) → keep (λ e. not (survives [] e)) cs ≡ []
unfolding survives get
suppressed_none [] = refl
suppressed_none (c ∷ cs) = suppressed_none cs

empty_lem :
    (m : List (Text × MonitorEvent)) (cs : List MonitorEvent)
    → is_empty m ≡ true
    → keep (λ e. not (survives m e)) cs ≡ []
empty_lem [] cs h = suppressed_none cs
empty_lem (p ∷ m) cs h = cc

suppressed_lem :
    (cs : List MonitorEvent)
    → (compute_net_collapse_view cs).suppressed_ids
      ≡ map (λ e. e.id) (keep (λ e. not (survives (newest_of cs) e)) cs)
unfolding compute_net_collapse_view
suppressed_lem cs = elim (Bool-cases (is_empty (newest_of cs))) [
  | inl e ↦ rw (e, empty_lem (newest_of cs) cs e) refl
  | inr e ↦ rw e
]

-- What is suppressed is the rest of what is delivered.
suppressed-delivered :
    (cs : List MonitorEvent) (e : MonitorEvent)
    → AreRows cs
    → In e cs
    → (includes (compute_net_collapse_view cs).suppressed_ids e.id ≡ true)
      ↔ (In e (compute_net_collapse_view cs).delivered → ⊥)
suppressed-delivered cs e r h =
    let newest = newest_of cs in
    rw (delivered-keep cs, suppressed_lem cs)
      (
        λ s i.
            let (f, among, same) = In-of_includes (keep (λ e. not (survives newest e)) cs) e.id s in
            let found = In-of_In-keep (λ e. not (survives newest e)) f cs among in
            let equal = r.distinct f e found.0 h same in
            let kept = In-of_In-keep (survives newest) e cs i in
            let out : not (survives newest e) ≡ true =
              subst (λ g. not (survives newest g) ≡ true) equal found.1 in
            ground arith,
        λ n. elim (Bool-cases (survives newest e)) [
          | inl s ↦ absurd (n (In-keep (survives newest) e cs h s))
          | inr s ↦
              In-includes (keep (λ e. not (survives newest e)) cs) e
                (In-keep (λ e. not (survives newest e)) e cs h (ap not s))
        ],
      )

-- A later event of the same object stands for the event.
abbrev pub IsNewer : MonitorEvent → MonitorEvent → Type 0
IsNewer e f = InGroup (net_collapse_group_key e) f × (event_leb f e ≡ false)

IsLatest-or_IsNewer :
    (e : MonitorEvent) (cs : List MonitorEvent)
    → IsLatest e cs ⊎ ((f : MonitorEvent) × In f cs × IsNewer e f)
IsLatest-or_IsNewer e [] = inl tt
IsLatest-or_IsNewer e (c ∷ cs) = elim (IsLatest-or_IsNewer e cs) [
  | inr (f, i, newer) ↦ inr (f, inr i, newer)
  | inl rest ↦ elim (in_group (net_collapse_group_key e) c) [
    | inr out ↦ inl ((λ g. absurd (out g)), rest)
    | inl isin ↦ elim (Bool-cases (event_leb c e)) [
      | inl before ↦ inl ((λ _. before), rest)
      | inr after ↦ inr (c, inl refl, (isin, after))
    ]
  ]
]

-- Of events with distinct ids and key parts free of NUL, a candidate is suppressed exactly when it
-- may be folded and another candidate of the same group comes after it in the order by creation and
-- id. A group has one monitor, object and workspace, and an absent workspace counts as an empty one.
pub suppressed_iff :
    (cs : List MonitorEvent) (e : MonitorEvent)
    → AreRows cs
    → In e cs
    → (includes (compute_net_collapse_view cs).suppressed_ids e.id ≡ true)
      ↔ ((is_some (collapsible e) ≡ true) × (f : MonitorEvent) × In f cs × IsNewer e f)
suppressed_iff cs e r h =
    let out = suppressed-delivered cs e r h in
    let there = delivered_iff cs e r h in
    (
      λ s. elim (Option-cases (collapsible e)) [
        | inl single ↦ absurd (out.0 s (there.1 (inl single)))
        | inr (k, folded) ↦ elim (IsLatest-or_IsNewer e cs) [
          | inl latest ↦ absurd (out.0 s (there.1 (inr latest)))
          | inr (f, i, newer) ↦ (rw folded refl, f, i, newer)
        ]
      ],
      λ (folded, f, i, newer). out.1 λ d. elim (there.0 d) [
        | inl single ↦ true-false (sym (rw single at folded))
        | inr latest ↦
            let before =
              in-All (λ g. InGroup (net_collapse_group_key e) g → IsBefore g e) f cs latest i
                newer.0 in
            ground (arith, newer.1, before)
      ],
    )

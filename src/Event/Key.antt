-- ===== src/Event/Key.antt =====
-- The group key joins its parts by NUL without a collision.
use agent_monitors.Prelude.{
  ◌≡◌, refl, subst, ◌≢◌, ◌⊎◌, inl, inr, Option, none, some, [], ◌∷◌, ◌++◌, Text, codes, arith, All,
  or_else, Option-cases,
}
use agent_monitors.Event.{MonitorEvent, net_collapse_group_key, object_group_key, collapsible}

abbrev pub NulFree : Text → Type 0
NulFree t = All (λ c. c ≢ 0) t

-- A text before the first NUL is determined by the whole.
split_at_nul :
    (s t a b : Text) → NulFree s → NulFree t → s ++ (0 ∷ a) ≡ t ++ (0 ∷ b) → (s ≡ t) × (a ≡ b)
split_at_nul [] [] a b h k e = ground arith
split_at_nul [] (d ∷ t) a b h k e = ground arith
split_at_nul (c ∷ s) [] a b h k e = ground arith
split_at_nul (c ∷ s) (d ∷ t) a b h k e =
    let tails = split_at_nul s t a b h.1 k.1 (ground arith) in ground (arith, tails)

object_group_key_injective :
    (m n k l : Text) (v w : Option Text)
    → NulFree m
    → NulFree n
    → NulFree k
    → NulFree l
    → object_group_key m k v ≡ object_group_key n l w
    → (m ≡ n) × (k ≡ l) × (or_else v [] ≡ or_else w [])
object_group_key_injective m n k l v w hm hn hk hl e =
    let first = split_at_nul m n (k ++ (0 ∷ or_else v [])) (l ++ (0 ∷ or_else w [])) hm hn e in
    let second = split_at_nul k l (or_else v []) (or_else w []) hk hl first.1 in
    (first.0, second.0, second.1)

nul_in-append : (s a : Text) → NulFree (s ++ (0 ∷ a)) → ⊥
nul_in-append [] a h = h.0 refl
nul_in-append (c ∷ s) a h = nul_in-append s a h.1

NulFree-append : (s t : Text) → NulFree s → NulFree t → NulFree (s ++ t)
NulFree-append [] t h k = k
NulFree-append (c ∷ s) t h k = (h.0, NulFree-append s t h.1 k)

append_cancel : (s t u : Text) → s ++ t ≡ s ++ u → t ≡ u
append_cancel [] t u e = e
append_cancel (c ∷ s) t u e = append_cancel s t u (ground arith)

NulFree-singleton : (id : Text) → NulFree id → NulFree (codes "singleton:" ++ id)
NulFree-singleton id h = NulFree-append (codes "singleton:") id (omega arith) h

-- No part of the event's key contains NUL.
pub record HasPlainParts (e : MonitorEvent) : Type 0 where
  pub plain_id : NulFree e.id
  pub plain_monitor : NulFree e.monitor_id
  pub plain_object : (key : Text) → collapsible e ≡ some key → NulFree key

-- The same monitor, object and workspace.
abbrev pub SameObject : MonitorEvent → MonitorEvent → Type 0
SameObject a b =
    (a.monitor_id ≡ b.monitor_id)
    × (collapsible a ≡ collapsible b)
    × (or_else a.workspace_path [] ≡ or_else b.workspace_path [])

not_singleton :
    (id m k : Text) (w : Option Text)
    → NulFree id
    → codes "singleton:" ++ id ≡ object_group_key m k w
    → ⊥
not_singleton id m k w h e =
    nul_in-append m (k ++ (0 ∷ or_else w [])) (subst NulFree e (NulFree-singleton id h))

-- Two events whose ids, monitor ids and object keys hold no NUL get one group key only if they are
-- the same event by id, outside every group, or can both be folded and are about the same
-- monitor, object and workspace, an absent workspace being the empty one.
pub group_key_injective :
    (a b : MonitorEvent)
    → HasPlainParts a
    → HasPlainParts b
    → net_collapse_group_key a ≡ net_collapse_group_key b
    → ((collapsible a ≡ none) × (collapsible b ≡ none) × (a.id ≡ b.id)) ⊎ SameObject a b
unfolding net_collapse_group_key
group_key_injective a b ha hb e = elim (Option-cases (collapsible a)) [
  | inl na ↦ elim (Option-cases (collapsible b)) [
    | inl nb ↦ inl (na, nb, append_cancel (codes "singleton:") a.id b.id (ground arith))
    | inr (l, sb) ↦
        absurd (not_singleton a.id b.monitor_id l b.workspace_path ha.plain_id (ground arith))
  ]
  | inr (k, sa) ↦ elim (Option-cases (collapsible b)) [
    | inl nb ↦
        absurd (not_singleton b.id a.monitor_id k a.workspace_path hb.plain_id (ground arith))
    | inr (l, sb) ↦
        let p =
          object_group_key_injective a.monitor_id b.monitor_id k l a.workspace_path b.workspace_path
            ha.plain_monitor hb.plain_monitor (ha.plain_object k sa) (hb.plain_object l sb)
            (ground arith) in
        inr (p.0, ground arith, p.2)
  ]
]

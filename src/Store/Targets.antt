-- ===== src/Store/Targets.antt =====
-- The targets of a projection are different sessions.
use agent_monitors.Prelude.{
  ℕ, ◌≡◌, ◌∙◌, inl, inr, Bool, false, Option, List, [], ◌∷◌, Text, text_eq, text_eq_iff, arith, All,
  Bool-cases, AreDistinct, keep-AreDistinct, leb,
}
use agent_monitors.Event.{MonitorEvent}
use agent_monitors.Store.{Store}
use agent_monitors.Store.Sessions.{insert_by, order_by, in_workspace, sessions_for_workspace}
use agent_monitors.Store.Insert.{ephemeral_still_active, is_target, projection_targets}
use agent_monitors.Store.Consistent.{IsConsistent, same_session}

-- Ordering by a number permutes the rows, so keys stay unique.
module _ {A : Type 0} (key : A → ℕ) (same : A → A → Bool)
    (same_sym : (a b : A) → same a b ≡ same b a) where
  insert_by-All :
      (P : A → Type 0) (a : A) (xs : List A) → P a → All P xs → All P (insert_by key a xs)
  unfolding insert_by
  insert_by-All P a [] p h = (p, tt)
  insert_by-All P a (x ∷ xs) p h = ground (arith, insert_by-All P a xs p h.1)

  insert_by-AreDistinct :
      (a : A) (xs : List A)
      → All (λ b. same a b ≡ false) xs
      → AreDistinct same xs
      → AreDistinct same (insert_by key a xs)
  unfolding insert_by
  insert_by-AreDistinct a [] f d = (tt, tt)
  insert_by-AreDistinct a (x ∷ xs) f d = elim (Bool-cases (leb (key a) (key x))) [
    | inl e ↦ rw e (f, d)
    | inr e ↦ rw e (
      insert_by-All (λ b. same x b ≡ false) a xs (same_sym x a ∙ f.0) d.0,
      insert_by-AreDistinct a xs f.1 d.1,
    )
  ]

  order_by-All : (P : A → Type 0) (xs : List A) → All P xs → All P (order_by key xs)
  unfolding order_by
  order_by-All P [] h = tt
  order_by-All P (x ∷ xs) h = insert_by-All P x (order_by key xs) h.0 (order_by-All P xs h.1)

  pub order_by-AreDistinct :
      (xs : List A) → AreDistinct same xs → AreDistinct same (order_by key xs)
  unfolding order_by
  order_by-AreDistinct [] d = tt
  order_by-AreDistinct (x ∷ xs) d =
      insert_by-AreDistinct x (order_by key xs) (order_by-All (λ b. same x b ≡ false) xs d.0)
        (order_by-AreDistinct xs d.1)

text_eq_sym : (s t : Text) → text_eq s t ≡ text_eq t s
text_eq_sym s t = ground (arith, text_eq_iff s t, text_eq_iff t s)

pub targets-AreDistinct :
    (e : MonitorEvent) (only : Option Text) (s : Store)
    → IsConsistent s
    → AreDistinct same_session (projection_targets e only s)
unfolding projection_targets sessions_for_workspace
targets-AreDistinct e only s k = elim (Bool-cases (ephemeral_still_active e only s)) [
  | inl h ↦ rw h (
      keep-AreDistinct same_session (is_target only) _ (
        order_by-AreDistinct (λ a. a.created_at) same_session (λ a b. text_eq_sym a.id b.id) _
          (keep-AreDistinct same_session (λ a. in_workspace e.workspace_path a.workspace_path)
            s.sessions k.unique_sessions)))
  | inr h ↦ rw h tt
]

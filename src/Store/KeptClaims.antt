-- ===== src/Store/KeptClaims.antt =====
-- The writes of a claim on what holds between the tables.
use agent_monitors.Prelude.{
  ℕ, refl, inl, inr, Option, none, some, List, [], ◌∷◌, Text, Bool-cases, ltb, or_else, get,
}
use agent_monitors.Event.{
  MonitorEvent, NetCollapseView, BaselineStrategy, net, compute_net_collapse_view, is_empty,
  net_collapse_group_key,
}
use agent_monitors.Store.{Store, SessionCursor, DeliveryLifecycle, update_states}
use agent_monitors.Store.Claims.{
  set_per_recipient_diff, mark_net_suppressed, reanchor_from, reanchor_group, reanchor_parts,
  reanchor, reanchor_all, collapse_net_for_claim, advance_all, claimed_targets, as_claimed,
  advance_cursors_for_claimed_events, mark_claimed,
}
use agent_monitors.Store.Consistent.{IsConsistent, update_states-IsConsistent}
use agent_monitors.Store.Kept.{advance-IsConsistent}

pub advance_all-IsConsistent :
    (now : ℕ) (m : List (Text × SessionCursor)) (s : Store)
    → IsConsistent s
    → IsConsistent (advance_all now m s)
unfolding advance_all
advance_all-IsConsistent now [] s k = k
advance_all-IsConsistent now ((key, c) ∷ m) s k =
    advance_all-IsConsistent now m _ (advance-IsConsistent s k now c)

pub claimed-IsConsistent :
    (now : ℕ) (session : Text) (ids : List Text) (lifecycle : DeliveryLifecycle) (s : Store)
    → IsConsistent s
    → IsConsistent (mark_claimed now session ids lifecycle s)
unfolding mark_claimed advance_cursors_for_claimed_events
claimed-IsConsistent now session [] lifecycle s k = k
claimed-IsConsistent now session (i ∷ ids) lifecycle s k =
    let t = update_states session (i ∷ ids) (as_claimed now lifecycle) s in
    advance_all-IsConsistent now (claimed_targets session (i ∷ ids) t) t (
      update_states-IsConsistent session (i ∷ ids) (as_claimed now lifecycle) s (λ r. refl)
        (λ r. refl) k)

module _ (build_diff : Text → Text → Option Text → Text) (now : ℕ) (session : Text)
    (view : NetCollapseView) where
  set_diff-IsConsistent :
      (id diff : Text) (s : Store)
      → IsConsistent s
      → IsConsistent (set_per_recipient_diff now session id diff s)
  unfolding set_per_recipient_diff
  set_diff-IsConsistent id diff s k =
      update_states-IsConsistent session (id ∷ []) _ s (λ r. refl) (λ r. refl) k

  reanchor_from-IsConsistent :
      (e : MonitorEvent) (artifact : Text) (c : Option SessionCursor) (s : Store)
      → IsConsistent s
      → IsConsistent (reanchor_from build_diff now session e artifact c s)
  unfolding reanchor_from
  reanchor_from-IsConsistent e artifact none s k = k
  reanchor_from-IsConsistent e artifact (some c) s k = set_diff-IsConsistent e.id _ s k

  reanchor_parts-IsConsistent :
      (e : MonitorEvent) (b : BaselineStrategy) (t o : Option Text) (s : Store)
      → IsConsistent s
      → IsConsistent (reanchor_parts build_diff now session view e b t o s)
  unfolding reanchor_parts reanchor_group
  reanchor_parts-IsConsistent e net (some artifact) (some key) s k =
      elim (Bool-cases
        (ltb 1 (or_else (get (net_collapse_group_key e) view.net_group_size_by_key) 1))) [
          | inl b ↦ rw b (reanchor_from-IsConsistent e artifact _ s k)
          | inr b ↦ rw b k
        ]
  reanchor_parts-IsConsistent e _ _ _ s k = k

  pub reanchor_all-IsConsistent :
      (es : List MonitorEvent) (s : Store)
      → IsConsistent s
      → IsConsistent (reanchor_all build_diff now session view es s)
  unfolding reanchor_all reanchor
  reanchor_all-IsConsistent [] s k = k
  reanchor_all-IsConsistent (e ∷ es) s k =
      reanchor_all-IsConsistent es _
        (reanchor_parts-IsConsistent e e.baseline_strategy e.snapshot_text e.object_key s k)

suppressed-IsConsistent :
    (now : ℕ) (session : Text) (ids : List Text) (s : Store)
    → IsConsistent s
    → IsConsistent (mark_net_suppressed now session ids s)
unfolding mark_net_suppressed
suppressed-IsConsistent now session [] s k = k
suppressed-IsConsistent now session (i ∷ ids) s k =
    update_states-IsConsistent session (i ∷ ids) _ s (λ r. refl) (λ r. refl) k

pub collapse-IsConsistent :
    (build_diff : Text → Text → Option Text → Text) (now : ℕ) (session : Text)
    (candidates : List MonitorEvent) (s : Store)
    → IsConsistent s
    → IsConsistent (collapse_net_for_claim build_diff now session candidates s)
unfolding collapse_net_for_claim
collapse-IsConsistent build_diff now session candidates s k =
    let v = compute_net_collapse_view candidates in
    elim (Bool-cases (is_empty v.net_group_size_by_key)) [
      | inl b ↦ rw b k
      | inr b ↦ rw b (
          suppressed-IsConsistent now session v.suppressed_ids _
            (reanchor_all-IsConsistent build_diff now session v v.delivered s k))
    ]

-- ===== src/Store/Claimed.antt =====
-- The writes of a claim as changes of the store.
use agent_monitors.Prelude.{
  ℕ, ◌≡◌, refl, ◌∙◌, inl, inr, Option, none, some, List, [], ◌∷◌, Text, arith, if◌then◌else◌,
  Bool-cases, ltb, get, or_else,
}
use agent_monitors.Event.{
  MonitorEvent, NetCollapseView, BaselineStrategy, net, is_empty, compute_net_collapse_view,
  net_collapse_group_key,
}
use agent_monitors.Store.{
  Store, SessionCursor, DeliveryLifecycle, update_states, advance_session_object_cursor,
}
use agent_monitors.Store.Change.{Change, unchanged, then-Change, same_rows, update-Change}
use agent_monitors.Store.Claims.{
  set_per_recipient_diff, mark_net_suppressed, reanchor_from, reanchor_group, reanchor_parts,
  reanchor, reanchor_all, collapse_net_for_claim, advance_all, claimed_targets, as_claimed,
  advance_cursors_for_claimed_events, mark_claimed,
}

module _ (session : Text) where
  set_diff-Change :
      (now : ℕ) (id diff : Text) (s : Store)
      → Change session [] [] s (set_per_recipient_diff now session id diff s)
  unfolding set_per_recipient_diff
  set_diff-Change now id diff s =
      update-Change session (id ∷ []) [] [] _ s (λ r. refl) (λ r. refl) (λ r. ground arith)
        (λ r. ground arith)

  mark_suppressed-Change :
      (now : ℕ) (ids : List Text) (s : Store)
      → Change session ids ids s (mark_net_suppressed now session ids s)
  unfolding mark_net_suppressed
  mark_suppressed-Change now [] s = unchanged session s s refl refl
  mark_suppressed-Change now (i ∷ ids) s =
      update-Change session (i ∷ ids) (i ∷ ids) (i ∷ ids) _ s (λ r. refl) (λ r. refl)
        (λ r. ground arith) (λ r. ground arith)

  advance_cursor-kept :
      (now : ℕ) (c : SessionCursor) (s : Store)
      → ((advance_session_object_cursor now c s).states ≡ s.states)
        × ((advance_session_object_cursor now c s).events ≡ s.events)
  unfolding advance_session_object_cursor
  advance_cursor-kept now c s = ground arith

  advance_all-kept :
      (now : ℕ) (m : List (Text × SessionCursor)) (s : Store)
      → ((advance_all now m s).states ≡ s.states) × ((advance_all now m s).events ≡ s.events)
  unfolding advance_all
  advance_all-kept now [] s = (refl, refl)
  advance_all-kept now ((k, c) ∷ m) s =
      let rest = advance_all-kept now m (advance_session_object_cursor now c s) in
      let first = advance_cursor-kept now c s in (rest.0 ∙ first.0, rest.1 ∙ first.1)

  pub mark_claimed-Change :
      (now : ℕ) (ids : List Text) (lifecycle : DeliveryLifecycle) (s : Store)
      → Change session [] ids s (mark_claimed now session ids lifecycle s)
  unfolding mark_claimed advance_cursors_for_claimed_events
  mark_claimed-Change now [] lifecycle s = unchanged session s s refl refl
  mark_claimed-Change now (i ∷ ids) lifecycle s =
      let claimed = update_states session (i ∷ ids) (as_claimed now lifecycle) s in
      let kept = advance_all-kept now (claimed_targets session (i ∷ ids) claimed) claimed in
      same_rows session
        (update-Change session (i ∷ ids) [] (i ∷ ids) (as_claimed now lifecycle) s (λ r. refl)
          (λ r. refl) (λ r. ground arith) (λ r. ground arith))
        kept.0 kept.1

-- What the collapse hides: the suppressed intermediates, if there is a group at all.
abbrev pub hidden_ids : List MonitorEvent → List Text
hidden_ids candidates =
    let v = compute_net_collapse_view candidates in
    if is_empty v.net_group_size_by_key then [] else v.suppressed_ids

module _ (build_diff : Text → Text → Option Text → Text) (session : Text) (now : ℕ) where
  reanchor_from-Change :
      (e : MonitorEvent) (artifact : Text) (c : Option SessionCursor) (s : Store)
      → Change session [] [] s (reanchor_from build_diff now session e artifact c s)
  unfolding reanchor_from
  reanchor_from-Change e artifact none s = unchanged session s s refl refl
  reanchor_from-Change e artifact (some c) s = set_diff-Change session now e.id _ s

  reanchor_group-Change :
      (view : NetCollapseView) (e : MonitorEvent) (artifact key : Text) (s : Store)
      → Change session [] [] s (reanchor_group build_diff now session view e artifact key s)
  unfolding reanchor_group
  reanchor_group-Change view e artifact key s =
      elim (Bool-cases
        (ltb 1 (or_else (get (net_collapse_group_key e) view.net_group_size_by_key) 1))) [
          | inl b ↦ rw b (reanchor_from-Change e artifact _ s)
          | inr b ↦ rw b (unchanged session s s refl refl)
        ]

  reanchor_parts-Change :
      (view : NetCollapseView) (e : MonitorEvent) (b : BaselineStrategy) (t k : Option Text)
      (s : Store)
      → Change session [] [] s (reanchor_parts build_diff now session view e b t k s)
  unfolding reanchor_parts
  reanchor_parts-Change view e net (some artifact) (some key) s =
      reanchor_group-Change view e artifact key s
  reanchor_parts-Change view e _ _ _ s = unchanged session s s refl refl

  reanchor_all-Change :
      (view : NetCollapseView) (es : List MonitorEvent) (s : Store)
      → Change session [] [] s (reanchor_all build_diff now session view es s)
  unfolding reanchor_all reanchor
  reanchor_all-Change view [] s = unchanged session s s refl refl
  reanchor_all-Change view (e ∷ es) s =
      then-Change session
        (reanchor_parts-Change view e e.baseline_strategy e.snapshot_text e.object_key s)
        (reanchor_all-Change view es _)

  pub collapse-Change :
      (candidates : List MonitorEvent) (s : Store)
      → Change session
          (hidden_ids candidates)
          (hidden_ids candidates)
          s
          (collapse_net_for_claim build_diff now session candidates s)
  unfolding collapse_net_for_claim
  collapse-Change candidates s =
      let v = compute_net_collapse_view candidates in
      elim (Bool-cases (is_empty v.net_group_size_by_key)) [
        | inl b ↦ rw b (unchanged session s s refl refl)
        | inr b ↦ rw b (
            then-Change session (reanchor_all-Change v v.delivered s)
              (mark_suppressed-Change session now v.suppressed_ids _))
      ]

-- ===== src/Retraction/Sweep.antt =====
-- What the retractions of the runtime remove: exactly the events that they name.
use agent_monitors.Prelude.{
  ℕ, ◌+◌, ◌*◌, ◌/◌, ◌<◌, ◌≡◌, refl, sym, ap, ◌∙◌, ◌↔◌, inl, inr, Bool, true, false, ◌&&◌, Option,
  some, List, [], ◌∷◌, Text, text_eq, includes, any, arith, In, In-keep, In-of_In-keep,
  In-snoc_last, Bool-cases, ltb,
}
use agent_monitors.Event.{Urgency, MonitorEvent}
use agent_monitors.Store.{
  Store, ObjectSuppression, unread_events_for_session, pending_events_for_session, is_unread,
  is_pending,
}
use agent_monitors.Store.Retract.{
  WorkspaceScope, delete_resolved_object_events, retract_object_events,
  retract_object_events_by_key, upsert_object_suppression, active_object_suppressions,
  purge_expired_object_suppressions, whole_seconds, suppression_row, is_event_of_object,
  suppression_in_scope,
}
use agent_monitors.Store.Consistent.{IsConsistent}
use agent_monitors.Store.Kept.{retract_key-IsConsistent, suppression-IsConsistent}
use agent_monitors.Store.Reach.{Stored, Stored-IsConsistent}
use agent_monitors.Store.Retracted.{delete-events_iff, query-delete_iff}
use agent_monitors.Delivery.Ops.{Runtime, with_store, refresh_hook_state, prune}
use agent_monitors.Retraction.{
  refresh_all, apply_retraction, retract_events, suppress_object_events, sweep, sweep_all,
  tombstone, tombstone_scope, apply_object_suppressions, is_verify_scratch_object_key,
}

-- A refresh writes no table.
refresh_all-store :
    (now : ℕ) (ids : List Text) (rt : Runtime) → (refresh_all now ids rt).view.store ≡ rt.view.store
unfolding refresh_all refresh_hook_state prune
refresh_all-store now [] rt = refl
refresh_all-store now (i ∷ ids) rt = refresh_all-store now ids (refresh_hook_state now i rt)

-- The events that a tombstone covers.
abbrev pub is_covered : MonitorEvent → ObjectSuppression → Bool
is_covered f x = is_event_of_object (tombstone_scope x.workspace_path) x.monitor_id x.object_key f

retract-store_iff :
    (scope : WorkspaceScope) (monitor key : Text) (ids : List Text) (s : Store)
    → IsConsistent s
    → (session : Text) (urgency : Option Urgency) (f : MonitorEvent)
    → let t = (retract_object_events scope monitor key ids s).store in
      (In f (unread_events_for_session session urgency t) ↔ (
        In f (unread_events_for_session session urgency s)
        × ((text_eq f.monitor_id monitor && includes ids f.id) ≡ false)))
      × (In f (pending_events_for_session session urgency t) ↔ (
          In f (pending_events_for_session session urgency s)
          × ((text_eq f.monitor_id monitor && includes ids f.id) ≡ false)))
unfolding retract_object_events unread_events_for_session pending_events_for_session
retract-store_iff scope monitor key [] s k session urgency f =
    let none_named : (text_eq f.monitor_id monitor && false) ≡ false = ground arith in
    ((λ i. (i, none_named), λ p. p.0), (λ i. (i, none_named), λ p. p.0))
retract-store_iff scope monitor key (i ∷ ids) s k session urgency f =
    let p = λ (e : MonitorEvent). text_eq e.monitor_id monitor && includes (i ∷ ids) e.id in
    (
      query-delete_iff p scope monitor key s k (is_unread session urgency) f,
      query-delete_iff p scope monitor key s k (is_pending session urgency) f,
    )

module _ (build_diff : Text → Text → Option Text → Text) where
  -- A retraction by id, in a store that the calls reach, removes from the unread and from the
  -- pending events of every session those events that the monitor has under the given ids, and no
  -- others.
  pub retract_removes :
      (now : ℕ) (scope : WorkspaceScope) (monitor key : Text) (ids : List Text) (rt : Runtime)
      → Stored build_diff rt.view.store
      → (session : Text) (urgency : Option Urgency) (f : MonitorEvent)
      → let t = (retract_events now scope monitor key ids rt).1.view.store in
        (In f (unread_events_for_session session urgency t) ↔ (
          In f (unread_events_for_session session urgency rt.view.store)
          × ((text_eq f.monitor_id monitor && includes ids f.id) ≡ false)))
        × (In f (pending_events_for_session session urgency t) ↔ (
            In f (pending_events_for_session session urgency rt.view.store)
            × ((text_eq f.monitor_id monitor && includes ids f.id) ≡ false)))
  unfolding retract_events
  retract_removes now scope monitor key ids rt r session urgency f =
      rw (refresh_all-store now _ _) (
        retract-store_iff scope monitor key ids rt.view.store (Stored-IsConsistent build_diff r)
          session urgency f)

sweep-events :
    (now : ℕ) (x : ObjectSuppression) (rt : Runtime)
    → IsConsistent rt.view.store
    → (f : MonitorEvent)
    → In f (sweep now x rt).view.store.events
      ↔ (In f rt.view.store.events × (is_covered f x ≡ false))
unfolding sweep retract_object_events_by_key
sweep-events now x rt k f = rw (refresh_all-store now _ _) (
    delete-events_iff
      (is_event_of_object (tombstone_scope x.workspace_path) x.monitor_id x.object_key)
      (tombstone_scope x.workspace_path) x.monitor_id x.object_key rt.view.store k f)

sweep-IsConsistent :
    (now : ℕ) (x : ObjectSuppression) (rt : Runtime)
    → IsConsistent rt.view.store
    → IsConsistent (sweep now x rt).view.store
unfolding sweep
sweep-IsConsistent now x rt k = rw (refresh_all-store now _ _) (
    retract_key-IsConsistent rt.view.store k (tombstone_scope x.workspace_path) x.monitor_id
      x.object_key)

sweep_all-events :
    (now : ℕ) (xs : List ObjectSuppression) (rt : Runtime)
    → IsConsistent rt.view.store
    → (f : MonitorEvent)
    → In f (sweep_all now xs rt).view.store.events
      ↔ (In f rt.view.store.events × (any (is_covered f) xs ≡ false))
unfolding sweep_all
sweep_all-events now [] rt k f = (λ i. (i, refl), λ p. p.0)
sweep_all-events now (x ∷ xs) rt k f =
    let first = sweep-events now x rt k f in
    let rest = sweep_all-events now xs (sweep now x rt) (sweep-IsConsistent now x rt k) f in
    (
      λ i. let j = rest.0 i in let h = first.0 j.0 in (h.0, (rw h.1 j.1)),
      λ (i, n). rest.1 (first.1 (i, ground arith), ground arith),
    )

delete-suppressions :
    (scope : WorkspaceScope) (monitor key : Text) (ids : List Text) (s : Store)
    → (delete_resolved_object_events scope monitor key ids s).store.suppressions ≡ s.suppressions
unfolding delete_resolved_object_events
delete-suppressions scope monitor key [] s = refl
delete-suppressions scope monitor key (i ∷ ids) s = refl

sweep-suppressions :
    (now : ℕ) (x : ObjectSuppression) (rt : Runtime)
    → (sweep now x rt).view.store.suppressions ≡ rt.view.store.suppressions
unfolding sweep retract_object_events_by_key
sweep-suppressions now x rt = rw (refresh_all-store now _ _) (
    delete-suppressions (tombstone_scope x.workspace_path) x.monitor_id x.object_key _
      rt.view.store)

-- What the sweep of one tombstone returns, with the count.
abbrev sweep_result : ℕ → ObjectSuppression → Runtime → ℕ × Runtime
sweep_result now x rt =
    apply_retraction now
      (retract_object_events_by_key (tombstone_scope x.workspace_path) x.monitor_id x.object_key
        rt.view.store)
      rt

some_injective : {A : Type 0} {a b : A} → some a ≡ some b → a ≡ b
some_injective h = cc

-- The test of an active tombstone.
abbrev is_active_at : ℕ → Text → ObjectSuppression → Bool
is_active_at later w y = ltb (whole_seconds later) y.expires_at && suppression_in_scope (some w) y

-- A cut time is before a whole second exactly when the time is.
test_iff :
    (b : Bool) (later end : ℕ)
    → ((ltb (whole_seconds later) (whole_seconds end) && b) ≡ true)
      ↔ ((b ≡ true) × (later < end / 1_000 * 1_000))
test_iff b later end = ground arith

module _ (build_diff : Text → Text → Option Text → Text) where
  -- The sweep at the end of a tick, from a store that the calls reach, leaves exactly the events
  -- that no tombstone covers which is active for the workspace at that time.
  pub sweep_leaves :
      (now : ℕ) (workspace : Text) (rt : Runtime)
      → Stored build_diff rt.view.store
      → (f : MonitorEvent)
      → In f (apply_object_suppressions now workspace rt).view.store.events ↔ (
          In f rt.view.store.events
          × (any (is_covered f) (active_object_suppressions (some workspace) now rt.view.store)
              ≡ false))
  unfolding apply_object_suppressions purge_expired_object_suppressions
  sweep_leaves now workspace rt r f =
      sweep_all-events now (active_object_suppressions (some workspace) now rt.view.store) rt
        (Stored-IsConsistent build_diff r) f

  -- A suppression that is accepted, in a store that the calls reach, is of a scratch file's key.
  -- It leaves exactly the events that are not of the object. Its row has the times cut to whole
  -- seconds, and is active in its workspace, or in every workspace if it has none, exactly before
  -- the whole second that its lifetime ends in.
  pub suppress_covers :
      (now : ℕ) (scope : Option Text) (monitor key : Text) (ttl : ℕ) (rt : Runtime)
      {r : ℕ × Runtime}
      → Stored build_diff rt.view.store
      → suppress_object_events now scope monitor key ttl rt ≡ some r
      → (is_verify_scratch_object_key key ≡ true)
        × ((f : MonitorEvent)
            → In f r.1.view.store.events ↔ (
                In f rt.view.store.events
                × (is_covered f (tombstone now scope monitor key ttl) ≡ false)))
        × ((later : ℕ) (workspace : Text)
            → In
                (suppression_row (tombstone now scope monitor key ttl))
                (active_object_suppressions (some workspace) later r.1.view.store)
              ↔ ((suppression_in_scope (some workspace) (tombstone now scope monitor key ttl)
                    ≡ true)
                  × (later < (now + ttl) / 1_000 * 1_000)))
  unfolding suppress_object_events sweep upsert_object_suppression active_object_suppressions
  suppress_covers now scope monitor key ttl rt {r} s h =
      elim (Bool-cases (is_verify_scratch_object_key key)) [
        | inl ok ↦
            let x = tombstone now scope monitor key ttl in
            let row = suppression_row x in
            let kept = with_store (upsert_object_suppression x) rt in
            let known =
              suppression-IsConsistent rt.view.store (Stored-IsConsistent build_diff s) x in
            let done : some (sweep_result now x kept) ≡ some r = rw ok at h in
            let same : (sweep now x kept).view.store ≡ r.1.view.store =
              ap (λ (z : ℕ × Runtime). z.1.view.store) (some_injective done) in
            let tombs =
              ap (λ (z : Store). z.suppressions) (sym same) ∙ sweep-suppressions now x kept in
            (
              ok,
              (λ f. rw (← same) (sweep-events now x kept known f)),
              λ later w. rw tombs (
                  let test = is_active_at later w in
                  let live = test_iff (suppression_in_scope (some w) x) later (now + ttl) in
                  (
                    λ i. live.0 (In-of_In-keep test row kept.view.store.suppressions i).1,
                    λ p.
                        In-keep test row kept.view.store.suppressions (In-snoc_last _ row)
                          (live.1 p),
                  )),
            )
        | inr bad ↦ absurd (refused bad)
      ]
    where
      refused : is_verify_scratch_object_key key ≡ false → ⊥
      refused bad = ground arith

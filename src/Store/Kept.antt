-- ===== src/Store/Kept.antt =====
-- The operations of the store on what holds between its tables: sessions, watches, cursors and
-- retraction.
use agent_monitors.Prelude.{
  ℕ, ◌≡◌, refl, inl, inr, false, ◌&&◌, not, Option, List, [], ◌∷◌, Text, text_eq, includes, keep,
  any, All, Bool-cases, Option-cases, keep-AreDistinct, snoc-AreDistinct, leb,
}
use agent_monitors.Store.{
  Store, EventState, SessionCursor, EphemeralMonitor, find, is_cursor,
  advance_session_object_cursor, acknowledge_events, touch_session, update_session_recap,
}
use agent_monitors.Store.Sessions.{
  OpenSessionInput, open_session, close_session, opened, reopened, is_host_session,
  reap_ephemeral_monitor, reaped, is_watch_of, reap_ephemeral_monitors_for_session,
  insert_ephemeral_monitor,
}
use agent_monitors.Store.Retract.{
  WorkspaceScope, delete_resolved_object_events, retract_object_events,
  retract_object_events_by_key, upsert_object_suppression, whole_seconds, suppression_row,
  purge_expired_object_suppressions, is_suppression_of,
}
use agent_monitors.Store.Insert.{record_interpret_decision}
use agent_monitors.Store.{InterpretDecision, ObjectSuppression}
use agent_monitors.Store.Consistent.{
  IsConsistent, same_event, same_state, same_cursor, same_session, same_host, same_tombstone,
  same_watch, OnCommit, IsKnown, IsKnown-keep, find-none, any-false, update_states-IsConsistent,
  update_sessions-IsConsistent, update-AreDistinct,
}
use agent_monitors.Store.Parts.{
  keep-not-All, with_cursors, with_tombstones, with_watches, with_sessions, add_cursor-IsConsistent,
}

module _ (s : Store) (k : IsConsistent s) where
  pub acknowledge-IsConsistent :
      (now : ℕ) (session : Text) (ids : List Text)
      → IsConsistent (acknowledge_events now session ids s)
  unfolding acknowledge_events
  acknowledge-IsConsistent now session [] = k
  acknowledge-IsConsistent now session (i ∷ ids) =
      update_states-IsConsistent session (i ∷ ids) _ s (λ r. refl) (λ r. refl) k

  pub decision-IsConsistent :
      (now : ℕ) (session event : Text) (d : InterpretDecision) (digest : Option Text)
      → IsConsistent (record_interpret_decision now session event d digest s)
  unfolding record_interpret_decision
  decision-IsConsistent now session event d digest =
      update_states-IsConsistent session (event ∷ []) _ s (λ r. refl) (λ r. refl) k

  pub touch-IsConsistent : (now : ℕ) (session : Text) → IsConsistent (touch_session now session s)
  unfolding touch_session
  touch-IsConsistent now session =
      update_sessions-IsConsistent (λ a. text_eq a.id session) _ s (λ a. refl) (λ a. refl)
        (λ a. refl) k

  pub recap-IsConsistent :
      (now : ℕ) (session : Text) → IsConsistent (update_session_recap now session s)
  unfolding update_session_recap
  recap-IsConsistent now session =
      update_sessions-IsConsistent (λ a. text_eq a.id session) _ s (λ a. refl) (λ a. refl)
        (λ a. refl) k

  pub close-IsConsistent : (now : ℕ) (session : Text) → IsConsistent (close_session now session s)
  unfolding close_session
  close-IsConsistent now session =
      update_sessions-IsConsistent (λ a. text_eq a.id session) _ s (λ a. refl) (λ a. refl)
        (λ a. refl) k

  -- With an id that no session has.
  pub open-IsConsistent :
      (now : ℕ) (id : Text) (input : OpenSessionInput)
      → any (λ a. text_eq a.id id) s.sessions ≡ false
      → IsConsistent (open_session now id input s)
  unfolding open_session
  open-IsConsistent now id input fresh =
      elim (Option-cases (find (is_host_session input.adapter input.host_session_id) s.sessions)) [
        | inl absent ↦ rw absent (
            with_sessions s _
              (snoc-AreDistinct same_session s.sessions (opened now id input) k.unique_sessions
                (any-false (λ a. text_eq a.id id) s.sessions fresh))
              (snoc-AreDistinct same_host s.sessions (opened now id input) k.unique_hosts
                (find-none (is_host_session input.adapter input.host_session_id) s.sessions absent))
              k)
        | inr (a, found) ↦ rw found (
            update_sessions-IsConsistent (λ b. text_eq b.id a.id) (reopened now input) s (λ b. refl)
              (λ b. refl) (λ b. refl) k)
      ]

  pub advance-IsConsistent :
      (now : ℕ) (c : SessionCursor) → IsConsistent (advance_session_object_cursor now c s)
  unfolding advance_session_object_cursor
  advance-IsConsistent now c =
      elim (Option-cases
        (find (is_cursor c.session_id c.monitor_id c.object_key c.workspace_path) s.cursors)) [
          | inl absent ↦
              rw (absent, advance_session_object_cursor) (add_cursor-IsConsistent c now s absent k)
          | inr (d, found) ↦
              rw (found, advance_session_object_cursor)
                (with_cursors s _
                  (update-AreDistinct
                    (is_cursor c.session_id c.monitor_id c.object_key c.workspace_path)
                    (λ e. record e {
                      baseline_snapshot_id = c.baseline_snapshot_id;
                      baseline_content = c.baseline_content;
                      updated_at = now;
                    })
                    same_cursor (λ a b. refl) (λ a b. refl) s.cursors k.unique_cursors)
                  k)
        ]

  -- The cascade leaves no row of a deleted event.
  pub delete-IsConsistent :
      (scope : WorkspaceScope) (monitor key : Text) (ids : List Text)
      → IsConsistent (delete_resolved_object_events scope monitor key ids s).store
  unfolding delete_resolved_object_events
  delete-IsConsistent scope monitor key [] = k
  delete-IsConsistent scope monitor key (i ∷ rest) =
      let ids : List Text = i ∷ rest in
      record {
        unique_events =
            keep-AreDistinct same_event (λ e. not (includes ids e.id)) s.events k.unique_events;
        unique_states =
            keep-AreDistinct same_state (λ r. not (includes ids r.event_id)) s.states
              k.unique_states;
        unique_cursors = keep-AreDistinct same_cursor _ s.cursors k.unique_cursors;
        unique_sessions = k.unique_sessions;
        unique_hosts = k.unique_hosts;
        unique_tombstones = k.unique_tombstones;
        unique_watches = k.unique_watches;
        known_states = still_known (λ (r : EventState). r.event_id) ids s.states k.known_states;
        known_snapshots = still_known (λ m. m.event_id) ids s.snapshots k.known_snapshots;
      }
    where
      still_known :
          {A : Type 0} (of : A → Text) (ids : List Text) (xs : List A)
          → All (λ x. IsKnown s.events (of x)) xs
          → All
              (λ x. IsKnown (keep (λ e. not (includes ids e.id)) s.events) (of x))
              (keep (λ x. not (includes ids (of x))) xs)
      still_known of ids [] h = tt
      still_known of ids (x ∷ xs) h = elim (Bool-cases (includes ids (of x))) [
        | inl e ↦ rw e (still_known of ids xs h.1)
        | inr e ↦ rw e (IsKnown-keep ids s.events (of x) h.0 e, still_known of ids xs h.1)
      ]

  pub retract-IsConsistent :
      (scope : WorkspaceScope) (monitor key : Text) (ids : List Text)
      → IsConsistent (retract_object_events scope monitor key ids s).store
  unfolding retract_object_events
  retract-IsConsistent scope monitor key [] = k
  retract-IsConsistent scope monitor key (i ∷ ids) = delete-IsConsistent scope monitor key _

  pub retract_key-IsConsistent :
      (scope : WorkspaceScope) (monitor key : Text)
      → IsConsistent (retract_object_events_by_key scope monitor key s).store
  unfolding retract_object_events_by_key
  retract_key-IsConsistent scope monitor key = delete-IsConsistent scope monitor key _

  pub suppression-IsConsistent :
      (x : ObjectSuppression) → IsConsistent (upsert_object_suppression x s)
  unfolding upsert_object_suppression
  suppression-IsConsistent x =
      let test = is_suppression_of x.monitor_id x.object_key x.workspace_path in
      with_tombstones s _
        (snoc-AreDistinct same_tombstone _ (suppression_row x)
          (keep-AreDistinct same_tombstone (λ y. not (test y)) s.suppressions k.unique_tombstones)
          (keep-not-All test s.suppressions))
        k

  pub reap-IsConsistent : (now : ℕ) (id : Text) → IsConsistent (reap_ephemeral_monitor now id s)
  unfolding reap_ephemeral_monitor
  reap-IsConsistent now id =
      with_watches s _
        (update-AreDistinct (λ m. text_eq m.id id && m.is_active) (reaped now) same_watch
          (λ m n. refl) (λ m n. refl) s.ephemerals k.unique_watches)
        k

  pub reap_session-IsConsistent :
      (now : ℕ) (session : Text)
      → IsConsistent (reap_ephemeral_monitors_for_session now session s).1
  unfolding reap_ephemeral_monitors_for_session
  reap_session-IsConsistent now session =
      with_watches s _
        (update-AreDistinct (is_watch_of session) (reaped now) same_watch (λ m n. refl)
          (λ m n. refl) s.ephemerals k.unique_watches)
        k

  pub declare-IsConsistent :
      (m : EphemeralMonitor) (now : ℕ) → OnCommit IsConsistent (insert_ephemeral_monitor m now s)
  unfolding insert_ephemeral_monitor
  declare-IsConsistent m now = elim (Bool-cases (any (λ n. text_eq n.id m.id) s.ephemerals)) [
    | inl there ↦ rw there tt
    | inr fresh ↦ rw fresh (
        with_watches s _
          (snoc-AreDistinct same_watch s.ephemerals _ k.unique_watches
            (any-false (λ n. text_eq n.id m.id) s.ephemerals fresh))
          k)
  ]

  pub purge-IsConsistent : (now : ℕ) → IsConsistent (purge_expired_object_suppressions now s)
  unfolding purge_expired_object_suppressions
  purge-IsConsistent now =
      with_tombstones s _
        (keep-AreDistinct same_tombstone (λ x. not (leb x.expires_at (whole_seconds now)))
          s.suppressions k.unique_tombstones)
        k

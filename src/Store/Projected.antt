-- ===== src/Store/Projected.antt =====
-- The loop of `insert_event` over its targets: it adds one projection for each.
use agent_monitors.Prelude.{
  ℕ, ◌≡◌, refl, ◌∙◌, inl, inr, false, ◌&&◌, Option, none, some, List, [], ◌∷◌, ◌++◌, Text, text_eq,
  All, Option-cases, All-snoc, AreDistinct, snoc-AreDistinct,
}
use agent_monitors.Event.{MonitorEvent}
use agent_monitors.Store.{Store, EventState, SessionCursor, AgentSession, get_session_object_cursor}
use agent_monitors.Store.Insert.{
  seed_session_object_cursor, projected, add_state, seeded, diff_for_recipient, per_recipient_diff,
  project_to, project_all,
}
use agent_monitors.Store.Consistent.{IsConsistent, same_state, same_session, IsKnown}
use agent_monitors.Store.Parts.{add_cursor-IsConsistent}

-- No projection of the event to the session is there yet.
abbrev pub IsUnprojected : MonitorEvent → List EventState → AgentSession → Type 0
IsUnprojected e rows a =
    All (λ r. (text_eq r.session_id a.id && text_eq r.event_id e.id) ≡ false) rows

add_state-IsConsistent :
    (s : Store) (r : EventState)
    → IsConsistent s
    → IsKnown s.events r.event_id
    → All (λ q. same_state q r ≡ false) s.states
    → IsConsistent (add_state r s)
add_state-IsConsistent s r k known fresh = record {
  unique_events = k.unique_events;
  unique_states = snoc-AreDistinct same_state s.states r k.unique_states fresh;
  unique_cursors = k.unique_cursors;
  unique_sessions = k.unique_sessions;
  unique_hosts = k.unique_hosts;
  unique_tombstones = k.unique_tombstones;
  unique_watches = k.unique_watches;
  known_states = All-snoc (λ q. IsKnown s.events q.event_id) s.states r k.known_states known;
  known_snapshots = k.known_snapshots;
}

-- The store after a seed: only the cursors may differ.
record Seeded (s t : Store) : Type 0 where
  consistent : IsConsistent t
  same_states : t.states ≡ s.states
  same_events : t.events ≡ s.events

seed_lem :
    (now : ℕ) (c : SessionCursor) (s : Store)
    → IsConsistent s
    → Seeded s (seed_session_object_cursor now c s)
unfolding seed_session_object_cursor
seed_lem now c s k =
    elim (Option-cases
      (get_session_object_cursor c.session_id c.monitor_id c.object_key c.workspace_path s)) [
        | inl absent ↦
            rw (absent, seed_session_object_cursor)
              record {
                consistent =
                    unfold get_session_object_cursor in add_cursor-IsConsistent c now s absent k;
                same_states = refl;
                same_events = refl;
              }
        | inr (d, found) ↦
            rw (found, seed_session_object_cursor)
              record { consistent = k; same_states = refl; same_events = refl }
      ]

module _ (build_diff : Text → Text → Option Text → Text) (now : ℕ) (e : MonitorEvent)
    (previous : Option Text) where
  recipient-Seeded :
      (session artifact key : Text) (c : Option SessionCursor) (s : Store)
      → IsConsistent s
      → Seeded s (diff_for_recipient build_diff now session e artifact key previous c s).1
  unfolding diff_for_recipient
  recipient-Seeded session artifact key none s k =
      seed_lem now (seeded session e artifact key previous) s k
  recipient-Seeded session artifact key (some c) s k = record {
    consistent = k;
    same_states = refl;
    same_events = refl;
  }

  delta-Seeded :
      (session : Text) (t o : Option Text) (s : Store)
      → IsConsistent s
      → Seeded s (per_recipient_diff build_diff now session e t o previous s).1
  unfolding per_recipient_diff
  delta-Seeded session (some artifact) (some key) s k = recipient-Seeded session artifact key _ s k
  delta-Seeded session none o s k = record {
    consistent = k;
    same_states = refl;
    same_events = refl;
  }
  delta-Seeded session (some artifact) none s k = record {
    consistent = k;
    same_states = refl;
    same_events = refl;
  }

  -- One projection is added, and its key is the session's.
  record Projected (a : AgentSession) (s t : Store) : Type 0 where
    consistent : IsConsistent t
    row : EventState
    row_session : row.session_id ≡ a.id
    row_event : row.event_id ≡ e.id
    states : t.states ≡ s.states ++ row ∷ []
    events : t.events ≡ s.events

  project_lem :
      (a : AgentSession) (s : Store)
      → IsConsistent s
      → IsKnown s.events e.id
      → IsUnprojected e s.states a
      → Projected a s (project_to build_diff now e previous a.id s)
  unfolding project_to
  project_lem a s k known fresh =
      let seed = delta-Seeded a.id e.snapshot_text e.object_key s k in
      let delta =
        per_recipient_diff build_diff now a.id e e.snapshot_text e.object_key previous s in
      let r = projected a.id e delta.0 in
      record {
        consistent =
            add_state-IsConsistent delta.1 r seed.consistent (rw seed.same_events known)
              (rw seed.same_states fresh);
        row = r;
        row_session = refl;
        row_event = refl;
        states = rw seed.same_states refl;
        events = seed.same_events;
      }

  -- After a projection to another session.
  still-IsUnprojected :
      (a b : AgentSession) (s t : Store)
      → Projected a s t
      → text_eq a.id b.id ≡ false
      → IsUnprojected e s.states b
      → IsUnprojected e t.states b
  still-IsUnprojected a b s t p other h = rw p.states (
      All-snoc (λ r. (text_eq r.session_id b.id && text_eq r.event_id e.id) ≡ false) s.states p.row
        h (rw (p.row_session, other) refl))

  All-still :
      (a : AgentSession) (bs : List AgentSession) (s t : Store)
      → Projected a s t
      → All (λ b. same_session a b ≡ false) bs
      → All (IsUnprojected e s.states) bs
      → All (IsUnprojected e t.states) bs
  All-still a [] s t p d h = tt
  All-still a (b ∷ bs) s t p d h =
      (still-IsUnprojected a b s t p d.0 h.0, All-still a bs s t p d.1 h.1)

  pub project_all-IsConsistent :
      (rows : List AgentSession) (s : Store)
      → IsConsistent s
      → IsKnown s.events e.id
      → AreDistinct same_session rows
      → All (IsUnprojected e s.states) rows
      → IsConsistent (project_all build_diff now e previous rows s)
        × ((project_all build_diff now e previous rows s).events ≡ s.events)
  unfolding project_all
  project_all-IsConsistent [] s k known d h = (k, refl)
  project_all-IsConsistent (a ∷ rest) s k known d h =
      let t = project_to build_diff now e previous a.id s in
      let p = project_lem a s k known h.0 in
      let after =
        project_all-IsConsistent rest t p.consistent (rw p.events known) d.1
          (All-still a rest s t p d.0 h.1) in
      (after.0, after.1 ∙ p.events)

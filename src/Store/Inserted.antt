-- ===== src/Store/Inserted.antt =====
-- `insert_event` on what holds between the tables.
use agent_monitors.Prelude.{
  ℕ, ◌≡◌, inl, inr, true, false, Option, none, some, List, [], ◌∷◌, ◌++◌, map, Text, text_eq,
  text_eq_iff, includes, arith, All, Bool-cases, All-mono, All-snoc, snoc-AreDistinct,
}
use agent_monitors.Event.{MonitorEvent}
use agent_monitors.Store.{Store, EventState, AgentSession}
use agent_monitors.Store.Insert.{save_snapshot, projection_targets, snapshot_event, insert_event}
use agent_monitors.Store.Consistent.{
  IsConsistent, same_event, IsKnown, IsKnown-snoc, IsKnown-last, OnCommit,
}
use agent_monitors.Store.Targets.{targets-AreDistinct}
use agent_monitors.Store.Projected.{IsUnprojected, project_all-IsConsistent}

add_snapshot-IsConsistent :
    (now : ℕ) (e : MonitorEvent) (t o : Option Text) (s : Store)
    → IsConsistent s
    → IsKnown s.events e.id
    → OnCommit IsConsistent (snapshot_event now e t o s)
unfolding save_snapshot
add_snapshot-IsConsistent now e none o s k known = k
add_snapshot-IsConsistent now e (some artifact) none s k known = tt
add_snapshot-IsConsistent now e (some artifact) (some key) s k known = record {
  unique_events = k.unique_events;
  unique_states = k.unique_states;
  unique_cursors = k.unique_cursors;
  unique_sessions = k.unique_sessions;
  unique_hosts = k.unique_hosts;
  unique_tombstones = k.unique_tombstones;
  unique_watches = k.unique_watches;
  known_states = k.known_states;
  known_snapshots =
      All-snoc (λ m. IsKnown s.events m.event_id) s.snapshots _ k.known_snapshots known;
}

-- A projection of a known event is not one of an event with a fresh id.
pub unprojected :
    (es : List MonitorEvent) (e : MonitorEvent) (rows : List EventState)
    → includes (map (λ (f : MonitorEvent). f.id) es) e.id ≡ false
    → All (λ r. IsKnown es r.event_id) rows
    → All (λ r. text_eq r.event_id e.id ≡ false) rows
unprojected es e [] fresh h = tt
unprojected es e (r ∷ rs) fresh h = (
  elim (Bool-cases (text_eq r.event_id e.id)) [
    | inl q ↦
        let same : r.event_id ≡ e.id = (text_eq_iff r.event_id e.id).0 q in
        let known : includes (map (λ (f : MonitorEvent). f.id) es) e.id ≡ true = rw (← same) h.0 in
        ground arith
    | inr q ↦ q
  ],
  unprojected es e rs fresh h.1,
)

pub add_event-IsConsistent :
    (e : MonitorEvent) (s : Store)
    → includes (map (λ (f : MonitorEvent). f.id) s.events) e.id ≡ false
    → IsConsistent s
    → IsConsistent record s { events = s.events ++ e ∷ [] }
add_event-IsConsistent e s fresh k = record {
  unique_events = snoc-AreDistinct same_event s.events e k.unique_events (fresh_ids s.events fresh);
  unique_states = k.unique_states;
  unique_cursors = k.unique_cursors;
  unique_sessions = k.unique_sessions;
  unique_hosts = k.unique_hosts;
  unique_tombstones = k.unique_tombstones;
  unique_watches = k.unique_watches;
  known_states =
      All-mono (λ r. IsKnown s.events r.event_id) _ (λ r h. IsKnown-snoc s.events e r.event_id h)
        s.states k.known_states;
  known_snapshots =
      All-mono (λ m. IsKnown s.events m.event_id) _ (λ m h. IsKnown-snoc s.events e m.event_id h)
        s.snapshots k.known_snapshots;
}
  where
    fresh_ids :
        (es : List MonitorEvent)
        → includes (map (λ (f : MonitorEvent). f.id) es) e.id ≡ false
        → All (λ f. same_event f e ≡ false) es
    fresh_ids [] h = tt
    fresh_ids (f ∷ fs) h = (ground arith, fresh_ids fs (ground arith))

pub insert-IsConsistent :
    (build_diff : Text → Text → Option Text → Text) (now : ℕ) (e : MonitorEvent)
    (previous only : Option Text) (s : Store)
    → IsConsistent s
    → OnCommit IsConsistent (insert_event build_diff now e previous only s).0
unfolding insert_event
insert-IsConsistent build_diff now e previous only s k =
    elim (Bool-cases (includes (map (λ (f : MonitorEvent). f.id) s.events) e.id)) [
      | inl there ↦ rw there tt
      | inr fresh ↦
          let t : Store = record s { events = s.events ++ e ∷ [] } in
          let added = add_event-IsConsistent e s fresh k in
          let known = IsKnown-last s.events e in
          let targets = projection_targets e only t in
          let all =
            project_all-IsConsistent build_diff now e previous targets t added known
              (targets-AreDistinct e only t added)
              (none_of targets (unprojected s.events e s.states fresh k.known_states)) in
          rw fresh
            (add_snapshot-IsConsistent now e e.snapshot_text e.object_key _ all.0 (rw all.1 known))
    ]
  where
    none_of :
        (rows : List AgentSession)
        → All (λ r. text_eq r.event_id e.id ≡ false) s.states
        → All (IsUnprojected e s.states) rows
    none_of [] h = tt
    none_of (a ∷ rest) h = (
      All-mono (λ r. text_eq r.event_id e.id ≡ false) _ (λ r q. ground arith) s.states h,
      none_of rest h,
    )

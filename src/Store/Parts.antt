-- ===== src/Store/Parts.antt =====
-- One table at a time: a store stays consistent when a table is replaced by one whose keys are
-- unique.
use agent_monitors.Prelude.{
  ℕ, ◌≡◌, inl, inr, Bool, false, not, none, List, [], ◌∷◌, ◌++◌, keep, All, Bool-cases, AreDistinct,
  snoc-AreDistinct,
}
use agent_monitors.Store.{Store, SessionCursor, AgentSession, EphemeralMonitor, find, is_cursor}
use agent_monitors.Store.{ObjectSuppression}
use agent_monitors.Store.Consistent.{
  IsConsistent, same_cursor, same_session, same_host, same_tombstone, same_watch, find-none,
}

pub keep-not-All :
    {A : Type 0} (p : A → Bool) (xs : List A) → All (λ y. p y ≡ false) (keep (λ y. not (p y)) xs)
keep-not-All p [] = tt
keep-not-All p (x ∷ xs) = elim (Bool-cases (p x)) [
  | inl e ↦ rw e (keep-not-All p xs)
  | inr e ↦ rw e (e, keep-not-All p xs)
]

pub with_cursors :
    (s : Store) (cs : List SessionCursor)
    → AreDistinct same_cursor cs
    → IsConsistent s
    → IsConsistent record s { cursors = cs }
with_cursors s cs d k = record {
  unique_events = k.unique_events;
  unique_states = k.unique_states;
  unique_cursors = d;
  unique_sessions = k.unique_sessions;
  unique_hosts = k.unique_hosts;
  unique_tombstones = k.unique_tombstones;
  unique_watches = k.unique_watches;
  known_states = k.known_states;
  known_snapshots = k.known_snapshots;
}

pub with_tombstones :
    (s : Store) (xs : List ObjectSuppression)
    → AreDistinct same_tombstone xs
    → IsConsistent s
    → IsConsistent record s { suppressions = xs }
with_tombstones s xs d k = record {
  unique_events = k.unique_events;
  unique_states = k.unique_states;
  unique_cursors = k.unique_cursors;
  unique_sessions = k.unique_sessions;
  unique_hosts = k.unique_hosts;
  unique_tombstones = d;
  unique_watches = k.unique_watches;
  known_states = k.known_states;
  known_snapshots = k.known_snapshots;
}

pub with_watches :
    (s : Store) (xs : List EphemeralMonitor)
    → AreDistinct same_watch xs
    → IsConsistent s
    → IsConsistent record s { ephemerals = xs }
with_watches s xs d k = record {
  unique_events = k.unique_events;
  unique_states = k.unique_states;
  unique_cursors = k.unique_cursors;
  unique_sessions = k.unique_sessions;
  unique_hosts = k.unique_hosts;
  unique_tombstones = k.unique_tombstones;
  unique_watches = d;
  known_states = k.known_states;
  known_snapshots = k.known_snapshots;
}

pub with_sessions :
    (s : Store) (xs : List AgentSession)
    → AreDistinct same_session xs
    → AreDistinct same_host xs
    → IsConsistent s
    → IsConsistent record s { sessions = xs }
with_sessions s xs d h k = record {
  unique_events = k.unique_events;
  unique_states = k.unique_states;
  unique_cursors = k.unique_cursors;
  unique_sessions = d;
  unique_hosts = h;
  unique_tombstones = k.unique_tombstones;
  unique_watches = k.unique_watches;
  known_states = k.known_states;
  known_snapshots = k.known_snapshots;
}

-- The rows that are appended with the cursor.
pub add_cursor-IsConsistent :
    (c : SessionCursor) (now : ℕ) (s : Store)
    → find (is_cursor c.session_id c.monitor_id c.object_key c.workspace_path) s.cursors ≡ none
    → IsConsistent s
    → IsConsistent record s { cursors = s.cursors ++ record c { updated_at = now } ∷ [] }
add_cursor-IsConsistent c now s absent k =
    with_cursors s _
      (snoc-AreDistinct same_cursor s.cursors (record c { updated_at = now }) k.unique_cursors
        (find-none (is_cursor c.session_id c.monitor_id c.object_key c.workspace_path) s.cursors
          absent))
      k

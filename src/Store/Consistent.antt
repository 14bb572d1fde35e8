-- ===== src/Store/Consistent.antt =====
-- What holds between the tables: the keys that are unique, and the events that rows refer to.
use agent_monitors.Prelude.{
  ◌≡◌, refl, subst, ◌∙◌, inl, inr, Bool, true, false, ◌&&◌, not, Option, none, some, List, [], ◌∷◌,
  ◌++◌, map, Text, text_eq, text_eq_iff, includes, keep, any, arith, All, Bool-cases, if◌then◌else◌,
  AreDistinct, map-AreDistinct,
}
use agent_monitors.Event.{MonitorEvent}
use agent_monitors.Store.{
  Store, EventState, SessionCursor, AgentSession, EphemeralMonitor, ObjectSuppression, update_where,
  update_states, is_cursor, is_row_of, find,
}
use agent_monitors.Store.Retract.{is_suppression_of}

abbrev pub same_event : MonitorEvent → MonitorEvent → Bool
same_event e f = text_eq e.id f.id

abbrev pub same_state : EventState → EventState → Bool
same_state r q = text_eq r.session_id q.session_id && text_eq r.event_id q.event_id

abbrev pub same_cursor : SessionCursor → SessionCursor → Bool
same_cursor c d = is_cursor d.session_id d.monitor_id d.object_key d.workspace_path c

abbrev pub same_session : AgentSession → AgentSession → Bool
same_session a b = text_eq a.id b.id

abbrev pub same_host : AgentSession → AgentSession → Bool
same_host a b = text_eq a.adapter b.adapter && text_eq a.host_session_id b.host_session_id

abbrev pub same_tombstone : ObjectSuppression → ObjectSuppression → Bool
same_tombstone x y = is_suppression_of y.monitor_id y.object_key y.workspace_path x

abbrev pub same_watch : EphemeralMonitor → EphemeralMonitor → Bool
same_watch m n = text_eq m.id n.id

abbrev pub ids_of : List MonitorEvent → List Text
ids_of es = map (λ e. e.id) es

abbrev pub IsKnown : List MonitorEvent → Text → Type 0
IsKnown es id = includes (ids_of es) id ≡ true

-- Ids of events, sessions and watches are unique, a host has one session, an event one projection to a
-- session, an object one cursor of a session and one tombstone; a projection and a snapshot
-- belong to an event that is there.
pub record IsConsistent (s : Store) : Type 0 where
  pub unique_events : AreDistinct same_event s.events
  pub unique_states : AreDistinct same_state s.states
  pub unique_cursors : AreDistinct same_cursor s.cursors
  pub unique_sessions : AreDistinct same_session s.sessions
  pub unique_hosts : AreDistinct same_host s.sessions
  pub unique_tombstones : AreDistinct same_tombstone s.suppressions
  pub unique_watches : AreDistinct same_watch s.ephemerals
  pub known_states : All (λ r. IsKnown s.events r.event_id) s.states
  pub known_snapshots : All (λ m. IsKnown s.events m.event_id) s.snapshots

-- Of a transaction that does not throw.
abbrev pub OnCommit : (Store → Type 0) → Option Store → Type 0
OnCommit P none = Unit {0}
OnCommit P (some s) = P s

pub OnCommit_some :
    (P : Store → Type 0) (o : Option Store) (t : Store) → OnCommit P o → o ≡ some t → P t
OnCommit_some P o t h e = let at : OnCommit P (some t) = subst (OnCommit P) e h in at

module _ {A : Type 0} (sel : A → Bool) (set : A → A) where
  abbrev updated : A → A
  updated x = if sel x then set x else x

  pub update-map : (xs : List A) → update_where sel set xs ≡ map updated xs
  update-map [] = refl
  update-map (x ∷ xs) = rw (update-map xs)

  pub update-All {κ} :
      (P : A → Type κ)
      → ((x : A) → P x → P (set x))
      → (xs : List A) → All P xs
      → All P (update_where sel set xs)
  update-All P f [] h = tt
  update-All P f (x ∷ xs) h = elim (Bool-cases (sel x)) [
    | inl e ↦ rw e (f x h.0, update-All P f xs h.1)
    | inr e ↦ rw e (h.0, update-All P f xs h.1)
  ]

  -- An update that writes no key.
  module _ (same : A → A → Bool) (left : (a b : A) → same (set a) b ≡ same a b)
      (right : (a b : A) → same a (set b) ≡ same a b) where
    updated-same : (a b : A) → same (updated a) (updated b) ≡ same a b
    updated-same a b = elim (Bool-cases (sel a)) [
      | inl e ↦ elim (Bool-cases (sel b)) [
        | inl f ↦ rw (e, f) (left a (set b) ∙ right a b)
        | inr f ↦ rw (e, f) (left a b)
      ]
      | inr e ↦ elim (Bool-cases (sel b)) [ inl f ↦ rw (e, f) (right a b) | inr f ↦ rw (e, f) refl ]
    ]

    pub update-AreDistinct :
        (xs : List A) → AreDistinct same xs → AreDistinct same (update_where sel set xs)
    update-AreDistinct xs d = rw (update-map xs) (map-AreDistinct same updated updated-same xs d)

pub find-none :
    {A : Type 0} (test : A → Bool) (xs : List A)
    → find test xs ≡ none
    → All (λ x. test x ≡ false) xs
find-none test [] h = tt
find-none test (x ∷ xs) h = elim (Bool-cases (test x)) [
  | inl e ↦ ground arith
  | inr e ↦ (e, find-none test xs (rw e at h))
]

pub any-false :
    {A : Type 0} (test : A → Bool) (xs : List A)
    → any test xs ≡ false
    → All (λ x. test x ≡ false) xs
any-false test [] h = tt
any-false test (x ∷ xs) h = (ground arith, any-false test xs (ground arith))

pub IsKnown-snoc :
    (es : List MonitorEvent) (e : MonitorEvent) (id : Text)
    → IsKnown es id
    → IsKnown (es ++ e ∷ []) id
IsKnown-snoc [] e id h = ground arith
IsKnown-snoc (f ∷ fs) e id h = ground (arith, IsKnown-snoc fs e id)

pub IsKnown-last : (es : List MonitorEvent) (e : MonitorEvent) → IsKnown (es ++ e ∷ []) e.id
IsKnown-last [] e = ground (arith, text_eq_iff e.id e.id)
IsKnown-last (f ∷ fs) e = ground (arith, IsKnown-last fs e)

-- An event that is not deleted stays known.
pub IsKnown-keep :
    (ids : List Text) (es : List MonitorEvent) (id : Text)
    → IsKnown es id
    → includes ids id ≡ false
    → IsKnown (keep (λ e. not (includes ids e.id)) es) id
IsKnown-keep ids [] id h k = h
IsKnown-keep ids (e ∷ es) id h k = elim (Bool-cases (text_eq e.id id)) [
  | inl q ↦
      let same : e.id ≡ id = (text_eq_iff e.id id).0 q in
      let kept : includes ids e.id ≡ false = rw same k in rw kept (ground arith)
  | inr q ↦
      let rest : IsKnown es id = ground arith in
      elim (Bool-cases (includes ids e.id)) [
        | inl r ↦ rw r (IsKnown-keep ids es id rest k)
        | inr r ↦ rw r (ground (arith, IsKnown-keep ids es id rest k))
      ]
]

-- An update of the projections that writes no key.
pub update_states-IsConsistent :
    (session : Text) (ids : List Text) (set : EventState → EventState) (s : Store)
    → ((r : EventState) → (set r).session_id ≡ r.session_id)
    → ((r : EventState) → (set r).event_id ≡ r.event_id)
    → IsConsistent s
    → IsConsistent (update_states session ids set s)
update_states-IsConsistent session ids set s se ev c = record {
  unique_events = c.unique_events;
  unique_states =
      update-AreDistinct (is_row_of session ids) set same_state (λ r q. rw (se r, ev r) refl)
        (λ r q. rw (se q, ev q) refl) s.states c.unique_states;
  unique_cursors = c.unique_cursors;
  unique_sessions = c.unique_sessions;
  unique_hosts = c.unique_hosts;
  unique_tombstones = c.unique_tombstones;
  unique_watches = c.unique_watches;
  known_states =
      update-All (is_row_of session ids) set (λ r. IsKnown s.events r.event_id) (λ r k. rw (ev r) k)
        s.states c.known_states;
  known_snapshots = c.known_snapshots;
}

pub update_sessions-IsConsistent :
    (sel : AgentSession → Bool) (set : AgentSession → AgentSession) (s : Store)
    → ((a : AgentSession) → (set a).id ≡ a.id)
    → ((a : AgentSession) → (set a).adapter ≡ a.adapter)
    → ((a : AgentSession) → (set a).host_session_id ≡ a.host_session_id)
    → IsConsistent s
    → IsConsistent record s { sessions = update_where sel set s.sessions }
update_sessions-IsConsistent sel set s i a h c = record {
  unique_events = c.unique_events;
  unique_states = c.unique_states;
  unique_cursors = c.unique_cursors;
  unique_sessions =
      update-AreDistinct sel set same_session (λ x y. rw (i x) refl) (λ x y. rw (i y) refl)
        s.sessions c.unique_sessions;
  unique_hosts =
      update-AreDistinct sel set same_host (λ x y. rw (a x, h x) refl) (λ x y. rw (a y, h y) refl)
        s.sessions c.unique_hosts;
  unique_tombstones = c.unique_tombstones;
  unique_watches = c.unique_watches;
  known_states = c.known_states;
  known_snapshots = c.known_snapshots;
}

-- ===== src/Store/Change.antt =====
-- A change of the store by a claim: each delivery state keeps its session, event and
-- acknowledgement, some are hidden from the session and some are claimed for it.
use agent_monitors.Prelude.{
  ◌≡◌, refl, inl, inr, ap, ◌∙◌, Bool, ◌&&◌, ◌||◌, not, Option, List, [], ◌∷◌, ◌++◌, map, Text,
  text_eq, text_eq_iff, includes, keep, arith, if◌then◌else◌, is_none, Bool-cases,
}
use agent_monitors.Event.{Urgency, MonitorEvent}
use agent_monitors.Store.{
  Store, EventState, update_where, is_unread, is_pending, unread_events_for_session,
  pending_events_for_session, is_row_of, update_states, not_interpret_suppressed,
  not_net_suppressed, matches_urgency,
}
use agent_monitors.Store.Rows.{IsJoined, on_row, select_events-change}

abbrev pub unread_state : EventState → Bool
unread_state r = is_none r.acknowledged_at && (not_interpret_suppressed r && not_net_suppressed r)

abbrev pub pending_state : EventState → Bool
pending_state r =
    is_none r.acknowledged_at
    && (is_none r.first_notified_at && (not_interpret_suppressed r && not_net_suppressed r))

-- The ids of `gone` leave the session's unread events, and the ids of `taken` its pending ones.
pub record Change (session : Text) (gone taken : List Text) (s t : Store) : Type 0 where
  pub effect : EventState → EventState
  pub states : t.states ≡ map effect s.states
  pub events : t.events ≡ s.events
  pub same_event : (r : EventState) → (effect r).event_id ≡ r.event_id
  pub same_session : (r : EventState) → (effect r).session_id ≡ r.session_id
  pub unread :
      (r : EventState)
      → unread_state (effect r) ≡ (unread_state r && not (is_row_of session gone r))
  pub pending :
      (r : EventState)
      → pending_state (effect r) ≡ (pending_state r && not (is_row_of session taken r))

map-map :
    (f g : EventState → EventState) (rs : List EventState)
    → map g (map f rs) ≡ map (λ r. g (f r)) rs
map-map f g [] = refl
map-map f g (r ∷ rs) = cc (map-map f g rs)

map_id : (rs : List EventState) → rs ≡ map (λ r. r) rs
map_id [] = refl
map_id (r ∷ rs) = cc (map_id rs)

includes-append :
    (xs ys : List Text) (k : Text) → includes (xs ++ ys) k ≡ (includes xs k || includes ys k)
includes-append [] ys k = refl
includes-append (x ∷ xs) ys k = ground (arith, includes-append xs ys k)

and_not_or : (u a b c : Bool) → ((u && not (a && b)) && not (a && c)) ≡ (u && not (a && (b || c)))
and_not_or u a b c = ground arith

module _ (session : Text) where
  pub unchanged :
      (s t : Store) → t.states ≡ s.states → t.events ≡ s.events → Change session [] [] s t
  unchanged s t a b = record {
    effect = λ r. r;
    states = a ∙ map_id s.states;
    events = b;
    same_event = λ r. refl;
    same_session = λ r. refl;
    unread = λ r. ground arith;
    pending = λ r. ground arith;
  }

  -- What follows leaves the delivery states and the events alone.
  pub same_rows :
      {g k : List Text} {s t u : Store}
      → Change session g k s t
      → u.states ≡ t.states
      → u.events ≡ t.events
      → Change session g k s u
  same_rows c a b = record {
    effect = c.effect;
    states = a ∙ c.states;
    events = b ∙ c.events;
    same_event = c.same_event;
    same_session = c.same_session;
    unread = c.unread;
    pending = c.pending;
  }

  row_of-append :
      (g h : List Text) (r : EventState)
      → is_row_of session (g ++ h) r
        ≡ (text_eq r.session_id session && (includes g r.event_id || includes h r.event_id))
  row_of-append g h r = cc (includes-append g h r.event_id)

  pub then-Change :
      {g h k l : List Text} {s t u : Store}
      → Change session g k s t
      → Change session h l t u
      → Change session (g ++ h) (k ++ l) s u
  then-Change {g} {h} {k} {l} c d = record {
    effect = λ r. d.effect (c.effect r);
    states = d.states ∙ ap (map d.effect) c.states ∙ map-map c.effect d.effect _;
    events = d.events ∙ c.events;
    same_event = λ r. d.same_event (c.effect r) ∙ c.same_event r;
    same_session = λ r. d.same_session (c.effect r) ∙ c.same_session r;
    unread = λ r.
        rw
          (d.unread (c.effect r), c.unread r, c.same_event r, c.same_session r, row_of-append g h r)
          (and_not_or (unread_state r) (text_eq r.session_id session) (includes g r.event_id)
            (includes h r.event_id));
    pending = λ r.
        rw
          (
            d.pending (c.effect r),
            c.pending r,
            c.same_event r,
            c.same_session r,
            row_of-append k l r,
          )
          (and_not_or (pending_state r) (text_eq r.session_id session) (includes k r.event_id)
            (includes l r.event_id));
  }

  update_where-map :
      (sel : EventState → Bool) (set : EventState → EventState) (rs : List EventState)
      → update_where sel set rs ≡ map (λ r. if sel r then set r else r) rs
  update_where-map sel set [] = refl
  update_where-map sel set (r ∷ rs) = rw (update_where-map sel set rs)

  -- An update of the session's rows of some ids.
  pub update-Change :
      (ids gone taken : List Text) (set : EventState → EventState) (s : Store)
      → ((r : EventState) → (set r).event_id ≡ r.event_id)
      → ((r : EventState) → (set r).session_id ≡ r.session_id)
      → ((r : EventState)
          → unread_state (if is_row_of session ids r then set r else r)
            ≡ (unread_state r && not (is_row_of session gone r)))
      → ((r : EventState)
          → pending_state (if is_row_of session ids r then set r else r)
            ≡ (pending_state r && not (is_row_of session taken r)))
      → Change session gone taken s (update_states session ids set s)
  update-Change ids gone taken set s ev se un pe = record {
    effect = λ r. if is_row_of session ids r then set r else r;
    states = update_where-map (is_row_of session ids) set s.states;
    events = refl;
    same_event = λ r. ground (arith, ev r);
    same_session = λ r. ground (arith, se r);
    unread = un;
    pending = pe;
  }

query_test :
    (owner other session : Text) (u m i : Bool)
    → ((text_eq owner other && m) && (u && not (text_eq owner session && i)))
      ≡ (((text_eq owner other && m) && u) && not (text_eq other session && i))
query_test owner other session u m i = elim (Bool-cases (text_eq owner other)) [
  | inl e ↦ rw ((text_eq_iff owner other).0 e) (ground arith)
  | inr e ↦ rw e (ground arith)
]

-- Whether a change for one session leaves an event to another.
abbrev pub is_left : Text → Text → List Text → MonitorEvent → Bool
is_left session other ids e = not (text_eq other session && includes ids e.id)

-- What the two queries of any session give after a change.
module _ {session : Text} {gone taken : List Text} {s t : Store}
    (c : Change session gone taken s t) where
  unread_test :
      (other : Text) (urgency : Option Urgency) (p : EventState × MonitorEvent)
      → IsJoined p
      → is_unread other urgency (on_row c.effect p)
        ≡ (is_unread other urgency p && is_left session other gone p.1)
  unread_test other urgency p j =
      rw (c.same_session p.0, c.unread p.0, j)
        (query_test p.0.session_id other session (unread_state p.0) (matches_urgency urgency p.1)
          (includes gone p.1.id))

  -- The ids of `gone` leave the session's unread events, and no other session's.
  pub unread-change :
      (other : Text) (urgency : Option Urgency)
      → unread_events_for_session other urgency t
        ≡ keep (is_left session other gone) (unread_events_for_session other urgency s)
  unfolding unread_events_for_session
  unread-change other urgency =
      select_events-change c.effect (is_unread other urgency) (is_left session other gone) s t
        c.same_event c.events c.states (unread_test other urgency)

  pending_test :
      (other : Text) (urgency : Option Urgency) (p : EventState × MonitorEvent)
      → IsJoined p
      → is_pending other urgency (on_row c.effect p)
        ≡ (is_pending other urgency p && is_left session other taken p.1)
  pending_test other urgency p j =
      rw (c.same_session p.0, c.pending p.0, j)
        (query_test p.0.session_id other session (pending_state p.0) (matches_urgency urgency p.1)
          (includes taken p.1.id))

  -- The ids of `taken` leave the session's pending events, and no other session's.
  pub pending-change :
      (other : Text) (urgency : Option Urgency)
      → pending_events_for_session other urgency t
        ≡ keep (is_left session other taken) (pending_events_for_session other urgency s)
  unfolding pending_events_for_session
  pending-change other urgency =
      select_events-change c.effect (is_pending other urgency) (is_left session other taken) s t
        c.same_event c.events c.states (pending_test other urgency)

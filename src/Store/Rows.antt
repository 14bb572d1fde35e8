-- ===== src/Store/Rows.antt =====
-- How a change of the delivery states, row by row, shows in the two queries of a session.
use agent_monitors.Prelude.{
  ◌≡◌, refl, Bool, ◌&&◌, List, [], ◌∷◌, ◌++◌, map, text_eq_iff, keep, arith, All,
}
use agent_monitors.Event.{MonitorEvent}
use agent_monitors.Store.{
  Store, EventState, join_one, join, insert_row, order_rows, select_events, event_of,
}

abbrev pub Rows : Type 0
Rows = List (EventState × MonitorEvent)

module _ (f : EventState → EventState) where
  abbrev pub on_row : EventState × MonitorEvent → EventState × MonitorEvent
  on_row p = (f p.0, p.1)

  map_on_append : (xs ys : Rows) → map on_row (xs ++ ys) ≡ map on_row xs ++ map on_row ys
  map_on_append [] ys = refl
  map_on_append (x ∷ xs) ys = cc (map_on_append xs ys)

  module _ (same : (r : EventState) → (f r).event_id ≡ r.event_id) where
    join_one-map :
        (r : EventState) (es : List MonitorEvent) → join_one (f r) es ≡ map on_row (join_one r es)
    unfolding join_one
    join_one-map r [] = refl
    join_one-map r (e ∷ es) = ground (arith, same r, join_one-map r es)

    join-map :
        (rs : List EventState) (es : List MonitorEvent)
        → join (map f rs) es ≡ map on_row (join rs es)
    unfolding join
    join-map [] es = refl
    join-map (r ∷ rs) es = rw (join_one-map r es, join-map rs es, map_on_append) refl

  insert_row-map :
      (p : EventState × MonitorEvent) (ps : Rows)
      → insert_row (on_row p) (map on_row ps) ≡ map on_row (insert_row p ps)
  unfolding insert_row
  insert_row-map p [] = refl
  insert_row-map p (q ∷ qs) = ground (arith, insert_row-map p qs)

  order_rows-map : (ps : Rows) → order_rows (map on_row ps) ≡ map on_row (order_rows ps)
  unfolding order_rows
  order_rows-map [] = refl
  order_rows-map (p ∷ ps) = rw (order_rows-map ps) (insert_row-map p (order_rows ps))

-- A row stands beside the event that it names.
abbrev pub IsJoined : EventState × MonitorEvent → Type 0
IsJoined p = p.0.event_id ≡ p.1.id

pub All-append {ℓ} :
    {A : Type ℓ} (P : A → Type 0) (xs ys : List A) → All P xs → All P ys → All P (xs ++ ys)
All-append P [] ys h k = k
All-append P (x ∷ xs) ys h k = (h.0, All-append P xs ys h.1 k)

join_one-IsJoined : (r : EventState) (es : List MonitorEvent) → All IsJoined (join_one r es)
unfolding join_one
join_one-IsJoined r [] = tt
join_one-IsJoined r (e ∷ es) = ground (arith, text_eq_iff r.event_id e.id, join_one-IsJoined r es)

pub join-IsJoined : (rs : List EventState) (es : List MonitorEvent) → All IsJoined (join rs es)
unfolding join
join-IsJoined [] es = tt
join-IsJoined (r ∷ rs) es =
    All-append IsJoined (join_one r es) (join rs es) (join_one-IsJoined r es) (join-IsJoined rs es)

insert_row-IsJoined :
    (p : EventState × MonitorEvent) (ps : Rows)
    → IsJoined p
    → All IsJoined ps
    → All IsJoined (insert_row p ps)
unfolding insert_row
insert_row-IsJoined p [] h k = (h, tt)
insert_row-IsJoined p (q ∷ qs) h k = ground (arith, insert_row-IsJoined p qs h k.1)

pub order_rows-IsJoined : (ps : Rows) → All IsJoined ps → All IsJoined (order_rows ps)
unfolding order_rows
order_rows-IsJoined [] h = tt
order_rows-IsJoined (p ∷ ps) h =
    insert_row-IsJoined p (order_rows ps) h.0 (order_rows-IsJoined ps h.1)

-- A test on changed rows that is the old test and a test of the event selects a part.
keep-on :
    (f : EventState → EventState) (test : EventState × MonitorEvent → Bool)
    (q : MonitorEvent → Bool) (ps : Rows)
    → All IsJoined ps
    → ((p : EventState × MonitorEvent) → IsJoined p → test (on_row f p) ≡ (test p && q p.1))
    → map event_of (keep test (map (on_row f) ps)) ≡ keep q (map event_of (keep test ps))
keep-on f test q [] j h = refl
keep-on f test q (p ∷ ps) j h = ground (arith, h p j.0, keep-on f test q ps j.1 h)

pub select_events-change :
    (f : EventState → EventState) (test : EventState × MonitorEvent → Bool)
    (q : MonitorEvent → Bool) (s t : Store)
    → ((r : EventState) → (f r).event_id ≡ r.event_id)
    → t.events ≡ s.events
    → t.states ≡ map f s.states
    → ((p : EventState × MonitorEvent) → IsJoined p → test (on_row f p) ≡ (test p && q p.1))
    → select_events test t ≡ keep q (select_events test s)
unfolding select_events
select_events-change f test q s t same e c h =
    rw (c, e, join-map f same, order_rows-map f)
      (keep-on f test q (order_rows (join s.states s.events))
        (order_rows-IsJoined _ (join-IsJoined s.states s.events)) h)

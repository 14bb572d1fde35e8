-- ===== src/Store/Members.antt =====
-- What the queries of a session select: an event with a row of the session that passes the test;
-- and that they select each event once.
use agent_monitors.Prelude.{
  ◌≡◌, refl, sym, ap, subst, ◌∙◌, ◌↔◌, inl, inr, ◌⊎◌, Bool, true, List, [], ◌∷◌, ◌++◌, map, text_eq,
  text_eq_iff, includes, keep, arith, In, in-All, In-keep, In-of_In-keep, Bool-cases,
}
use agent_monitors.Event.{MonitorEvent}
use agent_monitors.Store.{
  Store, EventState, join_one, join, insert_row, order_rows, select_events, event_of,
}
use agent_monitors.Store.Rows.{Rows, IsJoined, join-IsJoined}

pub In-append_left : {A : Type 0} (x : A) (xs ys : List A) → In x xs → In x (xs ++ ys)
In-append_left x [] ys h = elim h [ ]
In-append_left x (y ∷ r) ys (inl e) = inl e
In-append_left x (y ∷ r) ys (inr h) = inr (In-append_left x r ys h)

pub In-append_right : {A : Type 0} (x : A) (xs ys : List A) → In x ys → In x (xs ++ ys)
In-append_right x [] ys h = h
In-append_right x (y ∷ r) ys h = inr (In-append_right x r ys h)

pub In-of_append : {A : Type 0} (x : A) (xs ys : List A) → In x (xs ++ ys) → In x xs ⊎ In x ys
In-of_append x [] ys h = inr h
In-of_append x (y ∷ r) ys (inl e) = inl (inl e)
In-of_append x (y ∷ r) ys (inr h) = elim (In-of_append x r ys h) [
  | inl i ↦ inl (inr i)
  | inr i ↦ inr i
]

In-map : {A B : Type 0} (f : A → B) (x : A) (xs : List A) → In x xs → In (f x) (map f xs)
In-map f x [] h = elim h [ ]
In-map f x (y ∷ ys) (inl e) = inl (ap f e)
In-map f x (y ∷ ys) (inr h) = inr (In-map f x ys h)

In-of_map :
    {A B : Type 0} (f : A → B) (b : B) (xs : List A)
    → In b (map f xs)
    → (x : A) × In x xs × (b ≡ f x)
In-of_map f b [] h = elim h [ ]
In-of_map f b (y ∷ ys) (inl e) = (y, inl refl, e)
In-of_map f b (y ∷ ys) (inr h) = let r = In-of_map f b ys h in (r.0, inr r.1, r.2)

-- A row and an event of the same id.
In-join_one :
    (r : EventState) (e : MonitorEvent) (es : List MonitorEvent)
    → In e es
    → r.event_id ≡ e.id
    → In (r, e) (join_one r es)
unfolding join_one
In-join_one r e [] h q = elim h [ ]
In-join_one r e (f ∷ fs) (inl i) q =
    let hit : text_eq r.event_id f.id ≡ true =
      (text_eq_iff r.event_id f.id).1 (q ∙ ap (λ (g : MonitorEvent). g.id) i) in
    rw hit (inl (ap (λ (g : MonitorEvent). let p : EventState × MonitorEvent = (r, g) in p) i))
In-join_one r e (f ∷ fs) (inr i) q = elim (Bool-cases (text_eq r.event_id f.id)) [
  | inl b ↦ rw b (inr (In-join_one r e fs i q))
  | inr b ↦ rw b (In-join_one r e fs i q)
]

pub In-of_join_one :
    (r : EventState) (p : EventState × MonitorEvent) (es : List MonitorEvent)
    → In p (join_one r es)
    → (p.0 ≡ r) × In p.1 es
unfolding join_one
In-of_join_one r p [] h = elim h [ ]
In-of_join_one r p (f ∷ fs) h = elim (Bool-cases (text_eq r.event_id f.id)) [
  | inl b ↦
      let at : In p ((r, f) ∷ join_one r fs) = rw b at h in
      elim at [
        | inl e ↦ (
          ap (λ (x : EventState × MonitorEvent). x.0) e,
          inl (ap (λ (x : EventState × MonitorEvent). x.1) e),
        )
        | inr i ↦ let rest = In-of_join_one r p fs i in (rest.0, inr rest.1)
      ]
  | inr b ↦
      let at : In p (join_one r fs) = rw b at h in
      let rest = In-of_join_one r p fs at in (rest.0, inr rest.1)
]

In-join :
    (r : EventState) (e : MonitorEvent) (rs : List EventState) (es : List MonitorEvent)
    → In r rs
    → In e es
    → r.event_id ≡ e.id
    → In (r, e) (join rs es)
unfolding join
In-join r e [] es h i q = elim h [ ]
In-join r e (x ∷ xs) es (inl h) i q =
    In-append_left (r, e) (join_one x es) (join xs es)
      (subst (λ y. In (r, e) (join_one y es)) h (In-join_one r e es i q))
In-join r e (x ∷ xs) es (inr h) i q =
    In-append_right (r, e) (join_one x es) (join xs es) (In-join r e xs es h i q)

pub In-of_join :
    (p : EventState × MonitorEvent) (rs : List EventState) (es : List MonitorEvent)
    → In p (join rs es)
    → In p.0 rs × In p.1 es
unfolding join
In-of_join p [] es h = elim h [ ]
In-of_join p (x ∷ xs) es h = elim (In-of_append p (join_one x es) (join xs es) h) [
  | inl i ↦ let r = In-of_join_one x p es i in (inl r.0, r.1)
  | inr i ↦ let r = In-of_join p xs es i in (inr r.0, r.1)
]

In-insert_row :
    (x p : EventState × MonitorEvent) (ps : Rows) → In x (p ∷ ps) → In x (insert_row p ps)
unfolding insert_row
In-insert_row x p [] h = h
In-insert_row x p (q ∷ qs) h = ground (arith, In-insert_row x p qs)

In-of_insert_row :
    (x p : EventState × MonitorEvent) (ps : Rows) → In x (insert_row p ps) → In x (p ∷ ps)
unfolding insert_row
In-of_insert_row x p [] h = h
In-of_insert_row x p (q ∷ qs) h = ground (arith, In-of_insert_row x p qs)

In-order_rows : (x : EventState × MonitorEvent) (ps : Rows) → In x ps → In x (order_rows ps)
unfolding order_rows
In-order_rows x [] h = elim h [ ]
In-order_rows x (p ∷ ps) (inl e) = In-insert_row x p (order_rows ps) (inl e)
In-order_rows x (p ∷ ps) (inr h) = In-insert_row x p (order_rows ps) (inr (In-order_rows x ps h))

In-of_order_rows : (x : EventState × MonitorEvent) (ps : Rows) → In x (order_rows ps) → In x ps
unfolding order_rows
In-of_order_rows x [] h = h
In-of_order_rows x (p ∷ ps) h = elim (In-of_insert_row x p (order_rows ps) h) [
  | inl e ↦ inl e
  | inr i ↦ inr (In-of_order_rows x ps i)
]

-- A row that selects an event.
pub record IsSelected (test : EventState × MonitorEvent → Bool) (s : Store) (e : MonitorEvent)
    : Type 0 where
  pub row : EventState
  pub stored : In row s.states
  pub event : In e s.events
  pub joined : row.event_id ≡ e.id
  pub passes : test (row, e) ≡ true

pub select_events_iff :
    (test : EventState × MonitorEvent → Bool) (s : Store) (e : MonitorEvent)
    → In e (select_events test s) ↔ IsSelected test s e
unfolding select_events
select_events_iff test s e = (
  λ h.
      let m = In-of_map event_of e (keep test (order_rows (join s.states s.events))) h in
      let k = In-of_In-keep test m.0 (order_rows (join s.states s.events)) m.1 in
      let j = In-of_order_rows m.0 (join s.states s.events) k.0 in
      let parts = In-of_join m.0 s.states s.events j in
      record {
        row = m.0.0;
        stored = parts.0;
        event = subst (λ f. In f s.events) (sym m.2) parts.1;
        joined =
            in-All IsJoined m.0 (join s.states s.events) (join-IsJoined s.states s.events) j
            ∙ sym (ap (λ (f : MonitorEvent). f.id) m.2);
        passes = subst (λ f. test (m.0.0, f) ≡ true) (sym m.2) k.1;
      },
  λ d.
      In-map event_of (d.row, e) (keep test (order_rows (join s.states s.events)))
        (In-keep test (d.row, e) (order_rows (join s.states s.events))
          (In-order_rows (d.row, e) (join s.states s.events)
            (In-join d.row e s.states s.events d.stored d.event d.joined))
          d.passes),
)

pub known_id :
    (f : MonitorEvent) (es : List MonitorEvent)
    → In f es
    → includes (map (λ (g : MonitorEvent). g.id) es) f.id ≡ true
known_id f [] h = elim h [ ]
known_id f (g ∷ gs) (inl i) =
    let hit : text_eq g.id f.id ≡ true =
      (text_eq_iff g.id f.id).1 (ap (λ (x : MonitorEvent). x.id) (sym i)) in
    rw hit refl
known_id f (g ∷ gs) (inr i) = ground (arith, known_id f gs i)

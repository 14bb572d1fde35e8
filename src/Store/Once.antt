-- ===== src/Store/Once.antt =====
-- A query of a session lists each event once, when the keys of the tables are unique.
use agent_monitors.Prelude.{
  ◌≡◌, refl, ◌∙◌, inl, inr, Bool, true, false, Option, List, [], ◌∷◌, ◌++◌, map, Text, text_eq,
  text_eq_iff, keep, arith, All, in-All, Bool-cases, AreDistinct, keep-AreDistinct, In-of_In-keep,
}
use agent_monitors.Event.{Urgency, MonitorEvent, event_leb}
use agent_monitors.Store.{
  Store, EventState, join_one, join, insert_row, order_rows, select_events, event_of, is_unread,
  is_pending, unread_events_for_session, pending_events_for_session,
}
use agent_monitors.Store.Rows.{Rows, IsJoined, join-IsJoined, order_rows-IsJoined, All-append}
use agent_monitors.Store.Consistent.{IsConsistent, same_event, same_state}
use agent_monitors.Store.Members.{In-of_join_one, In-of_join}
use agent_monitors.Prelude.{All-of_In}

same_row : EventState × MonitorEvent → EventState × MonitorEvent → Bool
same_row p q = same_state p.0 q.0

same_state_sym : (r q : EventState) → same_state r q ≡ same_state q r
same_state_sym r q = ground (
  arith,
  text_eq_iff r.session_id q.session_id,
  text_eq_iff q.session_id r.session_id,
  text_eq_iff r.event_id q.event_id,
  text_eq_iff q.event_id r.event_id,
)

append-AreDistinct :
    {A : Type 0} (same : A → A → Bool) (xs ys : List A)
    → AreDistinct same xs
    → AreDistinct same ys
    → All (λ x. All (λ y. same x y ≡ false) ys) xs
    → AreDistinct same (xs ++ ys)
append-AreDistinct same [] ys d e h = e
append-AreDistinct same (x ∷ xs) ys d e h =
    (All-append (λ b. same x b ≡ false) xs ys d.0 h.0, append-AreDistinct same xs ys d.1 e h.1)

-- At most one event has the id of a row.
no_join :
    (r : EventState) (e : MonitorEvent) (es : List MonitorEvent)
    → r.event_id ≡ e.id
    → All (λ f. same_event e f ≡ false) es
    → join_one r es ≡ []
unfolding join_one
no_join r e [] q h = refl
no_join r e (f ∷ fs) q h =
    let miss : text_eq r.event_id f.id ≡ false = rw q h.0 in rw miss (no_join r e fs q h.1)

join_one-AreDistinct :
    (r : EventState) (es : List MonitorEvent)
    → AreDistinct same_event es
    → AreDistinct same_row (join_one r es)
unfolding join_one
join_one-AreDistinct r [] d = tt
join_one-AreDistinct r (e ∷ es) d = elim (Bool-cases (text_eq r.event_id e.id)) [
  | inl b ↦ rw (b, no_join r e es ((text_eq_iff r.event_id e.id).0 b) d.0) (tt, tt)
  | inr b ↦ rw b (join_one-AreDistinct r es d.1)
]

join-AreDistinct :
    (rs : List EventState) (es : List MonitorEvent)
    → AreDistinct same_state rs
    → AreDistinct same_event es
    → AreDistinct same_row (join rs es)
unfolding join same_row
join-AreDistinct [] es d e = tt
join-AreDistinct (r ∷ rs) es d e =
    append-AreDistinct same_row (join_one r es) (join rs es) (join_one-AreDistinct r es e)
      (join-AreDistinct rs es d.1 e)
      (All-of_In _ (join_one r es) (λ p i. All-of_In _ (join rs es) (λ q j.
        let own = (In-of_join_one r p es i).0 in
        rw own (in-All (λ x. same_state r x ≡ false) q.0 rs d.0 (In-of_join q rs es j).0))))

insert_row-All :
    (P : EventState × MonitorEvent → Type 0) (p : EventState × MonitorEvent) (ps : Rows)
    → P p
    → All P ps
    → All P (insert_row p ps)
unfolding insert_row
insert_row-All P p [] h k = (h, tt)
insert_row-All P p (q ∷ qs) h k = ground (arith, insert_row-All P p qs h k.1)

insert_row-AreDistinct :
    (p : EventState × MonitorEvent) (ps : Rows)
    → All (λ q. same_row p q ≡ false) ps
    → AreDistinct same_row ps
    → AreDistinct same_row (insert_row p ps)
unfolding insert_row same_row
insert_row-AreDistinct p [] f d = (tt, tt)
insert_row-AreDistinct p (q ∷ qs) f d = elim (Bool-cases (event_leb p.1 q.1)) [
  | inl e ↦ rw e (f, d)
  | inr e ↦ rw e (
    insert_row-All (λ b. same_row q b ≡ false) p qs (same_state_sym q.0 p.0 ∙ f.0) d.0,
    insert_row-AreDistinct p qs f.1 d.1,
  )
]

order_rows-All :
    (P : EventState × MonitorEvent → Type 0) (ps : Rows) → All P ps → All P (order_rows ps)
unfolding order_rows
order_rows-All P [] h = tt
order_rows-All P (p ∷ ps) h = insert_row-All P p (order_rows ps) h.0 (order_rows-All P ps h.1)

order_rows-AreDistinct :
    (ps : Rows) → AreDistinct same_row ps → AreDistinct same_row (order_rows ps)
unfolding order_rows
order_rows-AreDistinct [] d = tt
order_rows-AreDistinct (p ∷ ps) d =
    insert_row-AreDistinct p (order_rows ps) (order_rows-All (λ q. same_row p q ≡ false) ps d.0)
      (order_rows-AreDistinct ps d.1)

-- Two rows of one session that are not of one key are of two events.
other_event :
    (session : Text) (p q : EventState × MonitorEvent)
    → IsJoined p
    → p.0.session_id ≡ session
    → IsJoined q
    → q.0.session_id ≡ session
    → same_row p q ≡ false
    → same_event p.1 q.1 ≡ false
unfolding same_row
other_event session p q i h j k f = ground (
  arith,
  text_eq_iff p.0.session_id q.0.session_id,
  text_eq_iff p.0.event_id q.0.event_id,
  text_eq_iff p.1.id q.1.id,
)

own-AreDistinct :
    (session : Text) (ps : Rows)
    → All (λ p. IsJoined p × (p.0.session_id ≡ session)) ps
    → AreDistinct same_row ps
    → AreDistinct same_event (map event_of ps)
own-AreDistinct session [] h d = tt
own-AreDistinct session (p ∷ ps) h d = (others ps h.1 d.0, own-AreDistinct session ps h.1 d.1)
  where
    others :
        (qs : Rows)
        → All (λ q. IsJoined q × (q.0.session_id ≡ session)) qs
        → All (λ q. same_row p q ≡ false) qs
        → All (λ f. same_event p.1 f ≡ false) (map event_of qs)
    others [] k f = tt
    others (q ∷ qs) k f = (other_event session p q h.0.0 h.0.1 k.0.0 k.0.1 f.0, others qs k.1 f.1)

select-AreDistinct :
    (session : Text) (test : EventState × MonitorEvent → Bool) (s : Store)
    → ((p : EventState × MonitorEvent) → test p ≡ true → p.0.session_id ≡ session)
    → IsConsistent s
    → AreDistinct same_event (select_events test s)
unfolding select_events
select-AreDistinct session test s own k =
    let rows = order_rows (join s.states s.events) in
    own-AreDistinct session (keep test rows)
      (All-of_In _ (keep test rows) (λ p i.
        let h = In-of_In-keep test p rows i in
        (
          in-All IsJoined p rows
              (order_rows-IsJoined (join s.states s.events) (join-IsJoined s.states s.events)) h.0,
          own p h.1,
        )))
      (keep-AreDistinct same_row test rows (
        order_rows-AreDistinct (join s.states s.events)
          (join-AreDistinct s.states s.events k.unique_states k.unique_events)))

pub unread-AreDistinct :
    (session : Text) (urgency : Option Urgency) (s : Store)
    → IsConsistent s
    → AreDistinct same_event (unread_events_for_session session urgency s)
unfolding unread_events_for_session
unread-AreDistinct session urgency s k =
    select-AreDistinct session (is_unread session urgency) s
      (λ p h. ground (arith, text_eq_iff p.0.session_id session)) k

pub pending-AreDistinct :
    (session : Text) (urgency : Option Urgency) (s : Store)
    → IsConsistent s
    → AreDistinct same_event (pending_events_for_session session urgency s)
unfolding pending_events_for_session
pending-AreDistinct session urgency s k =
    select-AreDistinct session (is_pending session urgency) s
      (λ p h. ground (arith, text_eq_iff p.0.session_id session)) k

-- ===== src/Store/Isolation.antt =====
-- An insert in the queries of the sessions: a target sees the event, and the view of every other
-- session stays.
use agent_monitors.Prelude.{
  ℕ, ◌≡◌, refl, sym, ap, ◌∙◌, ◌↔◌, ◌≢◌, inl, inr, ◌⊎◌, Bool, true, false, ◌&&◌, Option, some, List,
  [], ◌∷◌, ◌++◌, map, Text, text_eq, text_eq_iff, includes, keep, arith, In, in-All, Bool-cases,
  In-snoc, In-snoc_left, In-snoc_last, true-false,
}
use agent_monitors.Event.{Urgency, MonitorEvent}
use agent_monitors.Store.{
  Store, EventState, AgentSession, select_events, matches_urgency, unread_events_for_session,
  pending_events_for_session,
}
use agent_monitors.Store.Sessions.{sessions_for_workspace, find_ephemeral_monitor_by_id}
use agent_monitors.Store.Change.{unread_state, pending_state}
use agent_monitors.Store.Insert.{
  ephemeral_still_active, is_active_watch, is_target, projection_targets, insert_event,
}
use agent_monitors.Store.Consistent.{IsConsistent}
use agent_monitors.Store.Inserted.{unprojected}
use agent_monitors.Store.Members.{IsSelected, select_events_iff, known_id}
use agent_monitors.Store.Reach.{Stored, Stored-IsConsistent}
use agent_monitors.Store.Projecting.{Insertion, IsProjection, insert-Insertion}

-- Both queries: the session's rows of an urgency, with a test of the row's state.
abbrev pub query : (EventState → Bool) → Text → Option Urgency → EventState × MonitorEvent → Bool
query state session urgency p =
    (text_eq p.0.session_id session && matches_urgency urgency p.1) && state p.0

and_true : (a b c : Bool) → a ≡ true → b ≡ true → c ≡ true → ((a && b) && c) ≡ true
and_true a b c h k l = ground arith

module _ (state : EventState → Bool) {e : MonitorEvent} {ids : List Text} {s t : Store}
    (known : IsConsistent s) (ins : Insertion e ids s t)
    (shown : (k : Text) (r : EventState) → IsProjection e k r → state r ≡ true) (session : Text)
    (urgency : Option Urgency) (f : MonitorEvent) where
  -- What the event brings to the session.
  abbrev pub Arrives : Type 0
  Arrives = (f ≡ e) × (includes ids session ≡ true) × (matches_urgency urgency e ≡ true)

  no_old_row : (r : EventState) → In r s.states → r.event_id ≡ e.id → ⊥
  no_old_row r i q =
      let miss =
        in-All (λ x. text_eq x.event_id e.id ≡ false) r s.states
          (unprojected s.events e s.states ins.fresh known.known_states) i in
      ground (arith, text_eq_iff r.event_id e.id)

  no_old_event : In f s.events → f.id ≡ e.id → ⊥
  no_old_event i q =
      let hit : includes (map (λ (g : MonitorEvent). g.id) s.events) e.id ≡ true =
        rw (← q) (known_id f s.events i) in
      true-false (sym hit ∙ ins.fresh)

  after-before :
      IsSelected (query state session urgency) t f
      → IsSelected (query state session urgency) s f ⊎ Arrives
  after-before d =
      let at : In f (s.events ++ e ∷ []) = rw ins.events at d.event in
      elim (ins.only d.row d.stored) [
        | inl old ↦ elim (In-snoc f s.events e at) [
          | inl there ↦ inl record {
            row = d.row;
            stored = old;
            event = there;
            joined = d.joined;
            passes = d.passes;
          }
          | inr new ↦ absurd (no_old_row d.row old (d.joined ∙ ap (λ (g : MonitorEvent). g.id) new))
        ]
        | inr n ↦ elim (In-snoc f s.events e at) [
          | inl there ↦ absurd (no_old_event there (sym d.joined ∙ n.1))
          | inr new ↦
              let p : query state session urgency (d.row, e) ≡ true = rw new at d.passes in
              let own : d.row.session_id ≡ session =
                ground (arith, text_eq_iff d.row.session_id session) in
              inr (new, (rw own at n.0), ground arith)
        ]
      ]

  before-after :
      IsSelected (query state session urgency) s f ⊎ Arrives
      → IsSelected (query state session urgency) t f
  before-after (inl d) = record {
    row = d.row;
    stored = ins.old d.row d.stored;
    event = rw ins.events (In-snoc_left f s.events e d.event);
    joined = d.joined;
    passes = d.passes;
  }
  before-after (inr a) =
      let n = ins.new session a.1 in
      record {
        row = n.0;
        stored = n.1;
        event = rw (ins.events, a.0) (In-snoc_last s.events e);
        joined = n.2.of ∙ ap (λ (g : MonitorEvent). g.id) (sym a.0);
        passes =
            and_true _ _ _ ((text_eq_iff n.0.session_id session).1 n.2.own) (rw a.0 a.2)
              (shown session n.0 n.2);
      }

  pub query_after :
      In f (select_events (query state session urgency) t)
      ↔ (In f (select_events (query state session urgency) s) ⊎ Arrives)
  query_after = (
    λ i. elim (after-before ((select_events_iff (query state session urgency) t f).0 i)) [
      | inl d ↦ inl ((select_events_iff (query state session urgency) s f).1 d)
      | inr a ↦ inr a
    ],
    λ o. (select_events_iff (query state session urgency) t f).1 (
        before-after (elim o [
          | inl i ↦ inl ((select_events_iff (query state session urgency) s f).0 i)
          | inr a ↦ inr a
        ])),
  )

module _ (build_diff : Text → Text → Option Text → Text) (now : ℕ) (e : MonitorEvent)
    (previous : Option Text) where
  -- After an insert that commits, in a store that the calls reach, a session's unread events are
  -- what they were and, exactly if the event was projected to the session and has the urgency that
  -- is asked for, the event; and so are its pending events.
  pub insert_reaches :
      (restrict_to : Option Text) (s t : Store)
      → Stored build_diff s
      → (insert_event build_diff now e previous restrict_to s).0 ≡ some t
      → (session : Text) (urgency : Option Urgency) (f : MonitorEvent)
      → let ids = (insert_event build_diff now e previous restrict_to s).1 in
        (In f (unread_events_for_session session urgency t) ↔ (
          In f (unread_events_for_session session urgency s)
          ⊎ (f ≡ e) × (includes ids session ≡ true) × (matches_urgency urgency e ≡ true)))
        × (In f (pending_events_for_session session urgency t) ↔ (
            In f (pending_events_for_session session urgency s)
            ⊎ (f ≡ e) × (includes ids session ≡ true) × (matches_urgency urgency e ≡ true)))
  unfolding unread_events_for_session pending_events_for_session
  insert_reaches restrict_to s t r h session urgency f =
      let known = Stored-IsConsistent build_diff r in
      let ins = insert-Insertion build_diff now e previous restrict_to s t h in
      (
        query_after unread_state known ins (λ k row p. p.shown) session urgency f,
        query_after pending_state known ins (λ k row p. p.waiting) session urgency f,
      )

  no_other_target :
      (only session : Text) (rows : List AgentSession)
      → session ≢ only
      → includes (map (λ (a : AgentSession). a.id) (keep (is_target (some only)) rows)) session
        ≡ false
  no_other_target only session [] h = refl
  no_other_target only session (a ∷ rest) h = ground (
    arith,
    no_other_target only session rest h,
    text_eq_iff a.id only,
    text_eq_iff a.id session,
    h,
  )

  -- An event of a watch goes to no session but the declaring one, and of a reaped watch to none.
  not_projected :
      (only session : Text) (s : Store)
      → (session ≢ only) ⊎ (is_active_watch (find_ephemeral_monitor_by_id e.monitor_id s) ≡ false)
      → includes (insert_event build_diff now e previous (some only) s).1 session ≡ false
  unfolding insert_event projection_targets find_ephemeral_monitor_by_id
  not_projected only session s c =
      elim (Bool-cases (includes (map (λ (f : MonitorEvent). f.id) s.events) e.id)) [
        | inl there ↦ rw there refl
        | inr fresh ↦
            let u : Store = record s { events = s.events ++ e ∷ [] } in
            elim (Bool-cases (ephemeral_still_active e (some only) u)) [
              | inl alive ↦ elim c [
                | inl other ↦
                    rw (fresh, projection_targets, alive)
                      (no_other_target only session (sessions_for_workspace e.workspace_path u)
                        other)
                | inr dead ↦ absurd (true-false (sym alive ∙ dead))
              ]
              | inr dead ↦ rw (fresh, projection_targets, dead) refl
            ]
      ]

  -- An insert for a watch, in a store that the calls reach, changes neither the unread nor the
  -- pending events of a session that did not declare the watch, nor those of any session if the
  -- watch is not active.
  pub insert_isolates :
      (only : Text) (s t : Store)
      → Stored build_diff s
      → (insert_event build_diff now e previous (some only) s).0 ≡ some t
      → (session : Text) (urgency : Option Urgency) (f : MonitorEvent)
      → (session ≢ only) ⊎ (is_active_watch (find_ephemeral_monitor_by_id e.monitor_id s) ≡ false)
      → (In f (unread_events_for_session session urgency t)
          ↔ In f (unread_events_for_session session urgency s))
        × (In f (pending_events_for_session session urgency t)
            ↔ In f (pending_events_for_session session urgency s))
  insert_isolates only s t r h session urgency f c =
      let reach = insert_reaches (some only) s t r h session urgency f in
      let out = not_projected only session s c in (same out reach.0, same out reach.1)
    where
      same : {A B C D : Type 0} {b : Bool} → b ≡ false → A ↔ (B ⊎ C × (b ≡ true) × D) → A ↔ B
      same out iff = (
        λ a. elim (iff.0 a) [ inl b ↦ b | inr n ↦ absurd (true-false (sym n.1 ∙ out)) ],
        λ b. iff.1 (inl b),
      )

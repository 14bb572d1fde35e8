-- ===== src/Store/Projecting.antt =====
-- Which sessions see an inserted event: the ones it is projected to, and nobody else.
use agent_monitors.Prelude.{
  ℕ, ◌≡◌, refl, sym, ◌∙◌, inl, inr, ◌⊎◌, true, false, Option, none, some, List, [], ◌∷◌, ◌++◌, map,
  Text, text_eq, text_eq_iff, includes, arith, In, Bool-cases, Option-cases, In-snoc, In-snoc_left,
  In-snoc_last, true-false,
}
use agent_monitors.Event.{MonitorEvent}
use agent_monitors.Store.{Store, EventState, SessionCursor, AgentSession, get_session_object_cursor}
use agent_monitors.Store.Change.{unread_state, pending_state}
use agent_monitors.Store.Insert.{
  seed_session_object_cursor, save_snapshot, projection_targets, projected, seeded,
  per_recipient_diff, project_to, project_all, snapshot_event, insert_event,
}
use agent_monitors.Store.Consistent.{OnCommit, OnCommit_some}

abbrev ids_of_sessions : List AgentSession → List Text
ids_of_sessions rows = map (λ (a : AgentSession). a.id) rows

-- A projection of the event that nothing hides yet.
pub record IsProjection (e : MonitorEvent) (session : Text) (r : EventState) : Type 0 where
  pub own : r.session_id ≡ session
  pub of : r.event_id ≡ e.id
  pub shown : unread_state r ≡ true
  pub waiting : pending_state r ≡ true

-- The projections that `t` has more than `s` are one for each of `ids`.
pub record Adds (e : MonitorEvent) (ids : List Text) (s t : Store) : Type 0 where
  pub events : t.events ≡ s.events
  pub old : (r : EventState) → In r s.states → In r t.states
  pub new :
      (k : Text) → includes ids k ≡ true → (r : EventState) × In r t.states × IsProjection e k r
  pub only :
      (r : EventState)
      → In r t.states
      → In r s.states ⊎ ((includes ids r.session_id ≡ true) × (r.event_id ≡ e.id))

module _ (build_diff : Text → Text → Option Text → Text) (now : ℕ) (e : MonitorEvent)
    (previous : Option Text) where
  seed-kept :
      (c : SessionCursor) (s : Store)
      → ((seed_session_object_cursor now c s).states ≡ s.states)
        × ((seed_session_object_cursor now c s).events ≡ s.events)
  unfolding seed_session_object_cursor
  seed-kept c s = ground arith

  delta-kept :
      (session : Text) (t o : Option Text) (s : Store)
      → ((per_recipient_diff build_diff now session e t o previous s).1.states ≡ s.states)
        × ((per_recipient_diff build_diff now session e t o previous s).1.events ≡ s.events)
  unfolding per_recipient_diff
  delta-kept session (some artifact) (some key) s =
      elim (Option-cases (get_session_object_cursor session e.monitor_id key e.workspace_path s)) [
        | inl absent ↦ rw absent (seed-kept (seeded session e artifact key previous) s)
        | inr (c, found) ↦ rw found (refl, refl)
      ]
  delta-kept session none o s = (refl, refl)
  delta-kept session (some artifact) none s = (refl, refl)

  project-Adds :
      (session : Text) (s : Store)
      → Adds e (session ∷ []) s (project_to build_diff now e previous session s)
  unfolding project_to
  project-Adds session s =
      let kept = delta-kept session e.snapshot_text e.object_key s in
      let delta =
        per_recipient_diff build_diff now session e e.snapshot_text e.object_key previous s in
      let row = projected session e delta.0 in
      record {
        events = kept.1;
        old = λ r i. rw kept.0 (In-snoc_left r s.states row i);
        new = λ k h. (
          row,
          (rw kept.0 (In-snoc_last s.states row)),
          record {
            own = (text_eq_iff session k).0 (ground arith);
            of = refl;
            shown = refl;
            waiting = refl;
          },
        );
        only = λ r i.
            let at : In r (s.states ++ row ∷ []) = rw kept.0 at i in
            elim (In-snoc r s.states row at) [
              | inl j ↦ inl j
              | inr q ↦ inr (rw q (ground (arith, text_eq_iff session session)))
            ];
      }

  project_all-Adds :
      (rows : List AgentSession) (s : Store)
      → Adds e (ids_of_sessions rows) s (project_all build_diff now e previous rows s)
  unfolding project_all
  project_all-Adds [] s = record {
    events = refl;
    old = λ r i. i;
    new = λ k h. absurd (true-false (sym h));
    only = λ r i. inl i;
  }
  project_all-Adds (a ∷ rest) s =
      let t = project_to build_diff now e previous a.id s in
      let first = project-Adds a.id s in
      let then' = project_all-Adds rest t in
      record {
        events = then'.events ∙ first.events;
        old = λ r i. then'.old r (first.old r i);
        new = λ k h. elim (Bool-cases (text_eq a.id k)) [
          | inl q ↦ let n = first.new k (rw q refl) in (n.0, then'.old n.0 n.1, n.2)
          | inr q ↦ then'.new k (rw q at h)
        ];
        only = λ r i. elim (then'.only r i) [
          | inl j ↦ elim (first.only r j) [ inl o ↦ inl o | inr n ↦ inr (ground (arith, n), n.1) ]
          | inr n ↦ inr (ground (arith, n), n.1)
        ];
      }

-- The snapshot touches neither table.
snapshot-kept :
    (now : ℕ) (e : MonitorEvent) (t o : Option Text) (s : Store)
    → OnCommit (λ u. (u.states ≡ s.states) × (u.events ≡ s.events)) (snapshot_event now e t o s)
unfolding save_snapshot
snapshot-kept now e none o s = (refl, refl)
snapshot-kept now e (some artifact) none s = tt
snapshot-kept now e (some artifact) (some key) s = (refl, refl)

-- A committed insert: the event is new, and `ids` are the sessions that it is projected to.
pub record Insertion (e : MonitorEvent) (ids : List Text) (s t : Store) : Type 0 where
  pub fresh : includes (map (λ (f : MonitorEvent). f.id) s.events) e.id ≡ false
  pub events : t.events ≡ s.events ++ e ∷ []
  pub old : (r : EventState) → In r s.states → In r t.states
  pub new :
      (k : Text) → includes ids k ≡ true → (r : EventState) × In r t.states × IsProjection e k r
  pub only :
      (r : EventState)
      → In r t.states
      → In r s.states ⊎ ((includes ids r.session_id ≡ true) × (r.event_id ≡ e.id))

pub insert-Insertion :
    (build_diff : Text → Text → Option Text → Text) (now : ℕ) (e : MonitorEvent)
    (previous restrict_to : Option Text) (s t : Store)
    → (insert_event build_diff now e previous restrict_to s).0 ≡ some t
    → Insertion e (insert_event build_diff now e previous restrict_to s).1 s t
unfolding insert_event
insert-Insertion build_diff now e previous restrict_to s t h =
    elim (Bool-cases (includes (map (λ (f : MonitorEvent). f.id) s.events) e.id)) [
      | inl there ↦ absurd (no_commit there)
      | inr fresh ↦
          let u : Store = record s { events = s.events ++ e ∷ [] } in
          let targets = projection_targets e restrict_to u in
          let v = project_all build_diff now e previous targets u in
          let adds = project_all-Adds build_diff now e previous targets u in
          let committed : snapshot_event now e e.snapshot_text e.object_key v ≡ some t =
            rw fresh at h in
          let kept =
            OnCommit_some (λ w. (w.states ≡ v.states) × (w.events ≡ v.events)) _ t
              (snapshot-kept now e e.snapshot_text e.object_key v) committed in
          rw fresh record {
            fresh = fresh;
            events = kept.1 ∙ adds.events;
            old = λ r i. rw kept.0 (adds.old r i);
            new = λ k m. let n = adds.new k m in (n.0, (rw kept.0 n.1), n.2);
            only = λ r i. adds.only r (rw kept.0 at i);
          }
    ]
  where
    no_commit : includes (map (λ (f : MonitorEvent). f.id) s.events) e.id ≡ true → ⊥
    no_commit there = ground arith

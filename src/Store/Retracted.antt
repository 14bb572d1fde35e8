-- ===== src/Store/Retracted.antt =====
-- A retraction in the tables and in the queries: exactly the resolved events leave.
use agent_monitors.Prelude.{
  ◌≡◌, refl, sym, ap, ◌∙◌, ◌↔◌, inl, inr, Bool, true, false, not, List, [], ◌∷◌, map, Text, text_eq,
  text_eq_iff, includes, keep, arith, In, in-All, In-keep, In-of_In-keep, Bool-cases, AreDistinct,
  keep-All, All-universal, true-false,
}
use agent_monitors.Event.{MonitorEvent}
use agent_monitors.Store.{Store, EventState, select_events}
use agent_monitors.Store.Retract.{WorkspaceScope, delete_resolved_object_events}
use agent_monitors.Store.Consistent.{IsConsistent, same_event}
use agent_monitors.Store.Members.{IsSelected, select_events_iff, known_id}

abbrev pub matching_ids : (MonitorEvent → Bool) → List MonitorEvent → List Text
matching_ids p es = map (λ (e : MonitorEvent). e.id) (keep p es)

match_of_id :
    (id : Text) (es : List MonitorEvent)
    → includes (map (λ (g : MonitorEvent). g.id) es) id ≡ true
    → (g : MonitorEvent) × In g es × (g.id ≡ id)
match_of_id id [] h = absurd (true-false (sym h))
match_of_id id (g ∷ gs) h = elim (Bool-cases (text_eq g.id id)) [
  | inl q ↦ (g, inl refl, (text_eq_iff g.id id).0 q)
  | inr q ↦ let r = match_of_id id gs (rw q at h) in (r.0, inr r.1, r.2)
]

-- Where ids are unique, an id names one event.
pub same_id_same :
    (es : List MonitorEvent) (a b : MonitorEvent)
    → AreDistinct same_event es
    → In a es
    → In b es
    → a.id ≡ b.id
    → a ≡ b
same_id_same [] a b d i j q = elim i [ ]
same_id_same (e ∷ es) a b d (inl i) (inl j) q = i ∙ sym j
same_id_same (e ∷ es) a b d (inl i) (inr j) q =
    let miss = in-All (λ f. same_event e f ≡ false) b es d.0 j in
    let hit : text_eq e.id b.id ≡ true =
      (text_eq_iff e.id b.id).1 (ap (λ (x : MonitorEvent). x.id) (sym i) ∙ q) in
    absurd (true-false (sym hit ∙ miss))
same_id_same (e ∷ es) a b d (inr i) (inl j) q =
    let miss = in-All (λ f. same_event e f ≡ false) a es d.0 i in
    let hit : text_eq e.id a.id ≡ true =
      (text_eq_iff e.id a.id).1 (ap (λ (x : MonitorEvent). x.id) (sym j) ∙ sym q) in
    absurd (true-false (sym hit ∙ miss))
same_id_same (e ∷ es) a b d (inr i) (inr j) q = same_id_same es a b d.1 i j q

-- An event has the id of a match exactly if it is one.
matching_iff :
    (p : MonitorEvent → Bool) (es : List MonitorEvent) (f : MonitorEvent)
    → AreDistinct same_event es
    → In f es
    → includes (matching_ids p es) f.id ≡ p f
matching_iff p es f d i = elim (Bool-cases (p f)) [
  | inl y ↦ known_id f (keep p es) (In-keep p f es i y) ∙ sym y
  | inr n ↦ elim (Bool-cases (includes (matching_ids p es) f.id)) [
    | inl hit ↦
        let g = match_of_id f.id (keep p es) hit in
        let k = In-of_In-keep p g.0 es g.1 in
        let same = same_id_same es g.0 f d k.0 i g.2 in
        absurd (true-false (sym k.1 ∙ ap p same ∙ n))
    | inr miss ↦ miss ∙ sym n
  ]
]

module _ (scope : WorkspaceScope) (monitor key : Text) (ids : List Text) (s : Store) where
  delete-events :
      (delete_resolved_object_events scope monitor key ids s).store.events
      ≡ keep (λ e. not (includes ids e.id)) s.events
  unfolding delete_resolved_object_events
  delete-events = delete_cases ids
    where
      delete_cases :
          (xs : List Text)
          → (delete_resolved_object_events scope monitor key xs s).store.events
            ≡ keep (λ e. not (includes xs e.id)) s.events
      delete_cases [] = sym (
          keep-All (λ (e : MonitorEvent). not (includes [] e.id)) s.events
            (All-universal (λ e. not (includes [] e.id) ≡ true) (λ e. refl) s.events))
      delete_cases (x ∷ xs) = refl

  delete-states :
      (delete_resolved_object_events scope monitor key ids s).store.states
      ≡ keep (λ r. not (includes ids r.event_id)) s.states
  unfolding delete_resolved_object_events
  delete-states = delete_cases ids
    where
      delete_cases :
          (xs : List Text)
          → (delete_resolved_object_events scope monitor key xs s).store.states
            ≡ keep (λ r. not (includes xs r.event_id)) s.states
      delete_cases [] = sym (
          keep-All (λ (r : EventState). not (includes [] r.event_id)) s.states
            (All-universal (λ r. not (includes [] r.event_id) ≡ true) (λ r. refl) s.states))
      delete_cases (x ∷ xs) = refl

module _ (p : MonitorEvent → Bool) (scope : WorkspaceScope) (monitor key : Text) (s : Store)
    (known : IsConsistent s) where
  abbrev deleted : Store
  deleted = (delete_resolved_object_events scope monitor key (matching_ids p s.events) s).store

  -- The events that stay are those that do not match.
  pub delete-events_iff : (f : MonitorEvent) → In f deleted.events ↔ (In f s.events × (p f ≡ false))
  delete-events_iff f = (
    λ i.
        let k =
          In-of_In-keep (λ e. not (includes (matching_ids p s.events) e.id)) f s.events
            (rw (delete-events scope monitor key (matching_ids p s.events) s) at i) in
        let m = matching_iff p s.events f known.unique_events k.0 in (k.0, ground (arith, m)),
    λ (i, n).
        let m = matching_iff p s.events f known.unique_events i in
        rw (delete-events scope monitor key (matching_ids p s.events) s) (
          In-keep (λ e. not (includes (matching_ids p s.events) e.id)) f s.events i
            (ground (arith, m))),
  )

  IsSelected-after :
      (test : EventState × MonitorEvent → Bool) (f : MonitorEvent)
      → IsSelected test deleted f
      → IsSelected test s f × (p f ≡ false)
  IsSelected-after test f d =
      let e = (delete-events_iff f).0 d.event in
      let k =
        In-of_In-keep (λ r. not (includes (matching_ids p s.events) r.event_id)) d.row s.states
          (rw (delete-states scope monitor key (matching_ids p s.events) s) at d.stored) in
      (record { row = d.row; stored = k.0; event = e.0; joined = d.joined; passes = d.passes }, e.1)

  IsSelected-before :
      (test : EventState × MonitorEvent → Bool) (f : MonitorEvent)
      → IsSelected test s f
      → p f ≡ false
      → IsSelected test deleted f
  IsSelected-before test f d n =
      let m = matching_iff p s.events f known.unique_events d.event in
      let miss : includes (matching_ids p s.events) d.row.event_id ≡ false = rw d.joined (m ∙ n) in
      record {
        row = d.row;
        stored = rw (delete-states scope monitor key (matching_ids p s.events) s) (
            In-keep (λ r. not (includes (matching_ids p s.events) r.event_id)) d.row s.states
              d.stored (rw miss refl));
        event = (delete-events_iff f).1 (d.event, n);
        joined = d.joined;
        passes = d.passes;
      }

  pub query-delete_iff :
      (test : EventState × MonitorEvent → Bool) (f : MonitorEvent)
      → In f (select_events test deleted) ↔ (In f (select_events test s) × (p f ≡ false))
  query-delete_iff test f = (
    λ i.
        let d = IsSelected-after test f ((select_events_iff test deleted f).0 i) in
        ((select_events_iff test s f).1 d.0, d.1),
    λ (i, n).
        (select_events_iff test deleted f).1
          (IsSelected-before test f ((select_events_iff test s f).0 i) n),
  )

-- ===== src/Retraction/Tests.antt =====
-- The retractions at a store with one event, and the theorems about them.
use agent_monitors.Prelude.{
  ℕ, ◌*◌, ◌/◌, ◌<◌, ◌+◌, ◌≡◌, ◌↔◌, refl, true, false, ◌&&◌, none, some, [], ◌∷◌, Text, codes,
  text_eq, includes, any, In, or_else,
}
use agent_monitors.Event.{MonitorEvent}
use agent_monitors.Store.{unread_events_for_session, pending_events_for_session}
use agent_monitors.Store.Retract.{
  any_scope, active_object_suppressions, suppression_in_scope, suppression_row,
}
use agent_monitors.Store.Tests.{diff, monitor, shared, notified, notified-Stored}
use agent_monitors.Delivery.Ops.{Runtime}
use agent_monitors.Retraction.{
  retract_events, suppress_object_events, apply_object_suppressions, tombstone,
  is_verify_scratch_object_key,
}
use agent_monitors.Retraction.Sweep.{is_covered, retract_removes, sweep_leaves, suppress_covers}

abbrev runtime : Runtime
runtime = record { view = record { store = notified; reservations = [] }; hook_states = [] }

abbrev scratch : Text
scratch = codes "/w/agentmonitors-verify-0123456789ab.txt"

scratch_key : is_verify_scratch_object_key scratch ≡ true
unfolding is_verify_scratch_object_key text_eq
scratch_key = refl

other_key : is_verify_scratch_object_key (codes "/w/agentmonitors-verify-0123/x") ≡ false
unfolding is_verify_scratch_object_key text_eq
other_key = refl

abbrev suppressed : ℕ × Runtime
suppressed = or_else (suppress_object_events 20 none monitor scratch 1_000 runtime) (0, runtime)

accepted : suppress_object_events 20 none monitor scratch 1_000 runtime ≡ some suppressed
unfolding suppress_object_events text_eq
accepted = refl

retract_removes_example :
    (In shared (
        unread_events_for_session
          (115 ∷ [])
          none
          (retract_events 20 any_scope monitor (107 ∷ []) (shared.id ∷ []) runtime).1.view.store)
      ↔ (In shared (unread_events_for_session (115 ∷ []) none notified)
          × ((text_eq shared.monitor_id monitor && includes (shared.id ∷ []) shared.id) ≡ false)))
    × (In shared (
          pending_events_for_session
            (115 ∷ [])
            none
            (retract_events 20 any_scope monitor (107 ∷ []) (shared.id ∷ []) runtime).1.view.store)
        ↔ (In shared (pending_events_for_session (115 ∷ []) none notified)
            × ((text_eq shared.monitor_id monitor && includes (shared.id ∷ []) shared.id) ≡ false)))
retract_removes_example =
    retract_removes diff 20 any_scope monitor (107 ∷ []) (shared.id ∷ []) runtime notified-Stored
      (115 ∷ []) none shared

sweep_leaves_example :
    In shared (apply_object_suppressions 30 (119 ∷ []) runtime).view.store.events ↔ (
      In shared notified.events
      × (any (is_covered shared) (active_object_suppressions (some (119 ∷ [])) 30 notified)
          ≡ false))
sweep_leaves_example = sweep_leaves diff 30 (119 ∷ []) runtime notified-Stored shared

suppress_covers_example :
    (is_verify_scratch_object_key scratch ≡ true)
    × ((f : MonitorEvent)
        → In f suppressed.1.view.store.events ↔ (
            In f notified.events
            × (is_covered f (tombstone 20 none monitor scratch 1_000) ≡ false)))
    × ((later : ℕ) (workspace : Text)
        → In
            (suppression_row (tombstone 20 none monitor scratch 1_000))
            (active_object_suppressions (some workspace) later suppressed.1.view.store)
          ↔ ((suppression_in_scope (some workspace) (tombstone 20 none monitor scratch 1_000)
                ≡ true)
              × (later < (20 + 1_000) / 1_000 * 1_000)))
suppress_covers_example =
    suppress_covers diff 20 none monitor scratch 1_000 runtime notified-Stored accepted

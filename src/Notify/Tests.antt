-- ===== src/Notify/Tests.antt =====
-- Ticks of a debounced, a throttled and a rollup monitor, and the theorems at them.
use agent_monitors.Prelude.{
  ℕ, ◌+◌, ◌≤◌, ◌≡◌, refl, true, false, Bool, Option, none, some, List, [], ◌∷◌, ◌++◌, map, arith,
  Text, length, ◌≢◌, ◌⊎◌, ◌<◌, ◌/◌, take, codes, min, max,
}
use agent_monitors.Event.{Urgency, low, normal, high, urgency_rank, is_empty}
use agent_monitors.Notify.{
  NotifyConfig, debounce, throttle, rollup, MonitorDefinition, Observation,
  StoredObservationEnvelope, NotifyRuntimeState, effective_observation_urgency,
  serialize_observation, hydrated, hydrated_rollup, dispatch_one, dispatch_all, dispatch_rollup,
  dispatch_notify,
}
use agent_monitors.Notify.Pacing.{count, effective_in_band, dispatch_conserves}
use agent_monitors.Notify.Rollup.{rollup_keeps, rollup_once}
use agent_monitors.Notify.Throttle.{throttle_one, throttle_spaces}

abbrev monitor : Option NotifyConfig → MonitorDefinition
monitor c = record { id = 109 ∷ []; urgency = normal; urgency_max = some high; notify = c }

abbrev observation : ℕ → Option Urgency → Observation
observation name salience = record { title = name ∷ []; salience = salience }

abbrev idle : NotifyRuntimeState
idle = record {
  suppressed_until = none;
  pending_debounce = none;
  pending_rollup = none;
  rollup_last_fired_minute = none;
}

abbrev always : Text → ℕ → Text → Bool
always window now timezone = true

abbrev everything : StoredObservationEnvelope → Bool
everything e = true

abbrev three : List Observation
three = observation 97 none ∷ observation 98 (some low) ∷ observation 99 (some high) ∷ []

-- The escalated observation flushes the two that are held.
early_flush_run :
    length (dispatch_notify always (monitor (some (debounce 5_000))) three 1_000 idle).emitted ≡ 3
unfolding dispatch_notify dispatch_all dispatch_one effective_observation_urgency
early_flush_run = refl

-- Without a strategy the high one is held alone.
default_run : length (dispatch_notify always (monitor none) three 1_000 idle).emitted ≡ 2
unfolding dispatch_notify dispatch_all dispatch_one effective_observation_urgency
default_run = refl

throttled_some :
    is_empty (dispatch_notify always (monitor (some (throttle 5_000))) three 1_000 idle).emitted
    ≡ false
unfolding dispatch_notify dispatch_all dispatch_one effective_observation_urgency
throttled_some = refl

rolled_some :
    is_empty (dispatch_notify always (monitor (some (rollup [] none))) three 60_000 idle).emitted
    ≡ false
unfolding dispatch_notify dispatch_rollup
rolled_some = refl

effective_in_band_example :
    (1 ≤ urgency_rank (effective_observation_urgency (monitor none) (observation 98 (some low))))
    × (urgency_rank (effective_observation_urgency (monitor none) (observation 98 (some low))) ≤ 2)
    × (urgency_rank (effective_observation_urgency (monitor none) (observation 98 (some low)))
        ≡ min (max 0 1) 2)
effective_in_band_example =
    effective_in_band (monitor none) (observation 98 (some low)) (omega arith)

dispatch_conserves_example :
    count everything (dispatch_notify always (monitor none) three 1_000 idle).emitted
      + count everything (
          hydrated
            (dispatch_notify always (monitor none) three 1_000 idle).next_state.pending_debounce)
    ≡ count everything (hydrated idle.pending_debounce)
      + count everything (map (serialize_observation (monitor none) 1_000) three)
dispatch_conserves_example = dispatch_conserves everything always (monitor none) three 1_000 idle tt

abbrev rolling : MonitorDefinition
rolling = monitor (some (rollup [] none))

rollup_keeps_example :
    let d = dispatch_notify always rolling three 60_000 idle in
    let all =
      hydrated_rollup always idle.pending_rollup
      ++ map (serialize_observation rolling 60_000) three in
    let matched = always [] 60_000 (codes "UTC") in
    let fired = some (60_000 / 60_000) in
    ((matched ≡ true)
      × (idle.rollup_last_fired_minute ≢ fired)
      × (d.emitted ≡ all)
      × (d.next_state.pending_rollup ≡ none)
      × (d.next_state.rollup_last_fired_minute ≡ fired))
    ⊎ (((matched ≡ false) ⊎ (idle.rollup_last_fired_minute ≡ fired))
        × (d.emitted ≡ [])
        × (hydrated_rollup always d.next_state.pending_rollup ≡ all)
        × (d.next_state.rollup_last_fired_minute ≡ idle.rollup_last_fired_minute))
rollup_keeps_example = rollup_keeps always [] none rolling three 60_000 idle refl

rollup_once_example :
    (dispatch_notify always rolling three 61_000
      (dispatch_notify always rolling three 60_000 idle).next_state).emitted
    ≡ []
rollup_once_example =
    rollup_once always [] none rolling three three 60_000 61_000 idle refl rolled_some (omega arith)

abbrev throttled : MonitorDefinition
throttled = monitor (some (throttle 5_000))

throttle_one_example :
    let d = dispatch_notify always throttled three 1_000 idle in
    ((until : ℕ) × (idle.suppressed_until ≡ some until) × (1_000 < until) × (d.emitted ≡ []))
    ⊎ (((idle.suppressed_until ≡ none)
          ⊎ ((until : ℕ) × (idle.suppressed_until ≡ some until) × (until ≤ 1_000)))
        × (d.emitted ≡ map (serialize_observation throttled 1_000) (take 1 three)))
throttle_one_example = throttle_one throttled 5_000 refl always three 1_000 idle (omega arith) refl

throttle_spaces_example :
    (dispatch_notify always throttled three 5_999
      (dispatch_notify always throttled three 1_000 idle).next_state).emitted
    ≡ []
throttle_spaces_example =
    throttle_spaces throttled 5_000 refl always three three 1_000 5_999 idle (omega arith) refl
      throttled_some (omega arith)

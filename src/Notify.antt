-- ===== src/Notify.antt =====
-- libs/core/src/runtime/service.ts: the Pace stage, which emits the observations of a tick or
-- holds them in the durable notify state of the monitor. Times are milliseconds. A notify config
-- has the milliseconds that `parseDuration` gives for its text; the test of the rollup window,
-- `cronMatchesDate`, is a parameter.
pub mod Pacing
pub mod Rollup
pub mod Throttle
mod Tests
use agent_monitors.Prelude.{
  ℕ, ◌+◌, ◌*◌, ◌/◌, min, max, Bool, true, false, ◌&&◌, not, Option, none, some, List, [], ◌∷◌, ◌++◌,
  map, Text, codes, ltb, leb, ◌==◌, if◌then◌else◌, or_else, is_some,
}
use agent_monitors.Event.{Urgency, low, normal, high, urgency_rank, is_empty}

pub data NotifyConfig : Type 0 where
  debounce : ℕ → NotifyConfig
  throttle : ℕ → NotifyConfig
  rollup : Text → Option Text → NotifyConfig

-- What the stage reads of a monitor's frontmatter; an old snapshot has no `urgencyMax`.
pub record MonitorDefinition : Type 0 where
  pub id : Text
  pub urgency : Urgency
  pub urgency_max : Option Urgency
  pub notify : Option NotifyConfig

pub record Observation : Type 0 where
  pub title : Text
  pub salience : Option Urgency

-- A batch from before the upgrade has no `effectiveUrgency`.
pub record StoredObservationEnvelope : Type 0 where
  pub monitor : MonitorDefinition
  pub observation : Observation
  pub observed_at : ℕ
  pub effective_urgency : Option Urgency

pub record PendingDebounceState : Type 0 where
  pub observations : List StoredObservationEnvelope
  pub due_at : ℕ

pub record NotifyRuntimeState : Type 0 where
  pub suppressed_until : Option ℕ
  pub pending_debounce : Option PendingDebounceState
  pub pending_rollup : Option (List StoredObservationEnvelope)
  pub rollup_last_fired_minute : Option ℕ

pub record NotifyDispatchResult : Type 0 where
  pub emitted : List StoredObservationEnvelope
  pub next_state : NotifyRuntimeState

-- `URGENCY_BY_RANK[rank] ?? lo`
abbrev pub urgency_by_rank : Urgency → ℕ → Urgency
urgency_by_rank lo n =
    if n == 0 then low else if n == 1 then normal else if n == 2 then high else lo

unfoldable pub effective_observation_urgency : MonitorDefinition → Observation → Urgency
effective_observation_urgency m o =
    let lo = m.urgency in
    let hi = or_else m.urgency_max lo in
    let desired = or_else o.salience lo in
    urgency_by_rank lo (min (max (urgency_rank desired) (urgency_rank lo)) (urgency_rank hi))

abbrev pub serialize_observation : MonitorDefinition → ℕ → Observation → StoredObservationEnvelope
serialize_observation m observed_at o = record {
  monitor = m;
  observation = o;
  observed_at = observed_at;
  effective_urgency = some (effective_observation_urgency m o);
}

abbrev pub hydrate_stored_observation_envelope :
    StoredObservationEnvelope → StoredObservationEnvelope
hydrate_stored_observation_envelope e = record e {
  effective_urgency =
      some (or_else e.effective_urgency (effective_observation_urgency e.monitor e.observation));
}

-- The debounce of a high urgency, in milliseconds.
abbrev pub high_urgency_default_debounce_settle_ms : ℕ
high_urgency_default_debounce_settle_ms = 15_000

abbrev pub default_notify_config_for_urgency : Urgency → Option NotifyConfig → Option NotifyConfig
default_notify_config_for_urgency urgency (some config) = some config
default_notify_config_for_urgency high none =
    some (debounce high_urgency_default_debounce_settle_ms)
default_notify_config_for_urgency _ none = none

-- The held batch, hydrated.
abbrev pub hydrated : Option PendingDebounceState → List StoredObservationEnvelope
hydrated none = []
hydrated (some p) = map hydrate_stored_observation_envelope p.observations

-- A batch that is due goes out first.
abbrev pub flush_due : ℕ → NotifyRuntimeState → Option PendingDebounceState → NotifyDispatchResult
flush_due now s none = record { emitted = []; next_state = s }
flush_due now s (some p) =
    if leb p.due_at now
    then record { emitted = hydrated (some p); next_state = record s { pending_debounce = none } }
    else record { emitted = []; next_state = s }

abbrev pub is_escalated : MonitorDefinition → Observation → Bool
is_escalated m o = ltb (urgency_rank m.urgency) (urgency_rank (effective_observation_urgency m o))

abbrev pub is_suppressed : ℕ → Option ℕ → Bool
is_suppressed now none = false
is_suppressed now (some until) = ltb now until

abbrev pub emit : StoredObservationEnvelope → NotifyDispatchResult → NotifyDispatchResult
emit e d = record d { emitted = d.emitted ++ e ∷ [] }

-- The loop's body after the early flush.
abbrev pub dispatch_config :
    ℕ
    → Option NotifyConfig
    → StoredObservationEnvelope
    → NotifyDispatchResult
    → NotifyDispatchResult
dispatch_config now none e d = emit e d
dispatch_config now (some (throttle suppress_ms)) e d =
    if is_suppressed now d.next_state.suppressed_until then d else record {
      emitted = d.emitted ++ e ∷ [];
      next_state = record d.next_state { suppressed_until = some (now + suppress_ms) };
    }
dispatch_config now (some (rollup window timezone)) e d = d
dispatch_config now (some (debounce settle_ms)) e d = record d {
  next_state = record d.next_state {
    pending_debounce = some record {
      observations = hydrated d.next_state.pending_debounce ++ e ∷ [];
      due_at = now + settle_ms;
    };
  };
}

-- The whole held batch and the escalated observation.
abbrev pub early_flush : StoredObservationEnvelope → NotifyDispatchResult → NotifyDispatchResult
early_flush e d = record {
  emitted = d.emitted ++ (hydrated d.next_state.pending_debounce ++ e ∷ []);
  next_state = record d.next_state { pending_debounce = none };
}

unfoldable pub dispatch_one :
    MonitorDefinition → ℕ → Observation → NotifyDispatchResult → NotifyDispatchResult
dispatch_one m now o d =
    let e = serialize_observation m now o in
    if is_escalated m o && is_some d.next_state.pending_debounce
    then early_flush e d
    else dispatch_config now
        (default_notify_config_for_urgency (effective_observation_urgency m o) m.notify) e d

unfoldable pub dispatch_all :
    MonitorDefinition → ℕ → List Observation → NotifyDispatchResult → NotifyDispatchResult
dispatch_all m now [] d = d
dispatch_all m now (o ∷ os) d = dispatch_all m now os (dispatch_one m now o d)

module _ (cron_matches_date : Text → ℕ → Text → Bool) where
  -- The window fires at most once in a minute.
  abbrev pub window_fires : Text → Option Text → ℕ → Option ℕ → Bool
  window_fires window timezone now none =
      cron_matches_date window now (or_else timezone (codes "UTC"))
  window_fires window timezone now (some minute) =
      cron_matches_date window now (or_else timezone (codes "UTC")) && not (minute == now / 60_000)

  abbrev pub hydrated_rollup :
      Option (List StoredObservationEnvelope) → List StoredObservationEnvelope
  hydrated_rollup none = []
  hydrated_rollup (some es) = map hydrate_stored_observation_envelope es

  abbrev pub held_rollup : List StoredObservationEnvelope → Option (List StoredObservationEnvelope)
  held_rollup [] = none
  held_rollup (e ∷ es) = some (e ∷ es)

  unfoldable pub dispatch_rollup :
      Text
      → Option Text
      → MonitorDefinition
      → ℕ
      → List Observation
      → NotifyRuntimeState
      → NotifyDispatchResult
  dispatch_rollup window timezone m now observations s =
      let accumulated =
        hydrated_rollup s.pending_rollup ++ map (serialize_observation m now) observations in
      if window_fires window timezone now s.rollup_last_fired_minute
      then record {
        emitted = accumulated;
        next_state = record s {
          pending_rollup = none;
          rollup_last_fired_minute = some (now / 60_000);
        };
      }
      else record {
        emitted = [];
        next_state = record s { pending_rollup = held_rollup accumulated };
      }

  -- A rollup monitor drops a debounce batch of an earlier strategy.
  abbrev pub dispatch_strategy :
      MonitorDefinition
      → List Observation
      → ℕ
      → NotifyRuntimeState
      → Option NotifyConfig
      → NotifyDispatchResult
  dispatch_strategy m observations now s (some (rollup window timezone)) =
      dispatch_rollup window timezone m now observations (record s { pending_debounce = none })
  dispatch_strategy m observations now s _ =
      dispatch_all m now observations (flush_due now s s.pending_debounce)

  unfoldable pub dispatch_notify :
      MonitorDefinition → List Observation → ℕ → NotifyRuntimeState → NotifyDispatchResult
  dispatch_notify m observations now s = dispatch_strategy m observations now s m.notify

-- ===== src/Notify/Pacing.antt =====
-- The urgency band of an observation, and the conservation of observations by debounce.
use agent_monitors.Prelude.{
  ℕ, ◌+◌, ◌≤◌, ◌≡◌, refl, sym, inl, inr, Bool, ◌&&◌, Option, none, some, List, [], ◌∷◌, ◌++◌, map,
  arith, keep, length, or_else, is_some, min, max, Bool-cases, subst, Text,
}
use agent_monitors.Event.{Urgency, low, normal, high, urgency_rank}
use agent_monitors.Notify.{
  NotifyConfig, debounce, throttle, rollup, MonitorDefinition, Observation,
  StoredObservationEnvelope, PendingDebounceState, NotifyRuntimeState, NotifyDispatchResult,
  effective_observation_urgency, urgency_by_rank, serialize_observation,
  hydrate_stored_observation_envelope, default_notify_config_for_urgency, hydrated, flush_due,
  is_escalated, dispatch_config, dispatch_one, dispatch_all, dispatch_strategy, dispatch_notify,
}

rank_of_rank : (lo : Urgency) (n : ℕ) → n ≤ 2 → urgency_rank (urgency_by_rank lo n) ≡ n
rank_of_rank lo n h = ground arith

rank_bound : (u : Urgency) → urgency_rank u ≤ 2
rank_bound low = omega arith
rank_bound normal = omega arith
rank_bound high = omega arith

effective-rank :
    (m : MonitorDefinition) (o : Observation)
    → urgency_rank (effective_observation_urgency m o)
      ≡ min
          (max (urgency_rank (or_else o.salience m.urgency)) (urgency_rank m.urgency))
          (urgency_rank (or_else m.urgency_max m.urgency))
unfolding effective_observation_urgency
effective-rank m o =
    rank_of_rank m.urgency _ (omega (arith, rank_bound (or_else m.urgency_max m.urgency)))

-- In a band that is not inverted, the urgency of an observation lies within the band, and is the
-- salience cut to the band, an absent salience counting as the band's bottom.
pub effective_in_band :
    (m : MonitorDefinition) (o : Observation)
    → urgency_rank m.urgency ≤ urgency_rank (or_else m.urgency_max m.urgency)
    → (urgency_rank m.urgency ≤ urgency_rank (effective_observation_urgency m o))
      × (urgency_rank (effective_observation_urgency m o)
          ≤ urgency_rank (or_else m.urgency_max m.urgency))
      × (urgency_rank (effective_observation_urgency m o)
          ≡ min
              (max (urgency_rank (or_else o.salience m.urgency)) (urgency_rank m.urgency))
              (urgency_rank (or_else m.urgency_max m.urgency)))
effective_in_band m o h =
    let rank = effective-rank m o in (omega (arith, rank), omega (arith, rank), rank)

-- No strategy, or debounce.
abbrev pub IsDebounced : Option NotifyConfig → Type 0
IsDebounced none = Unit
IsDebounced (some (debounce ms)) = Unit
IsDebounced (some (throttle ms)) = ⊥
IsDebounced (some (rollup w tz)) = ⊥

module _ (p : StoredObservationEnvelope → Bool) where
  -- How many envelopes of a list pass the test.
  abbrev pub count : List StoredObservationEnvelope → ℕ
  count es = length (keep p es)

  count-append : (xs ys : List StoredObservationEnvelope) → count (xs ++ ys) ≡ count xs + count ys
  count-append [] ys = omega arith
  count-append (x ∷ xs) ys = ground (arith, count-append xs ys)

  hydrate-twice :
      (es : List StoredObservationEnvelope) (e : StoredObservationEnvelope)
      → hydrate_stored_observation_envelope e ≡ e
      → map hydrate_stored_observation_envelope
          (map hydrate_stored_observation_envelope es ++ e ∷ [])
        ≡ map hydrate_stored_observation_envelope es ++ e ∷ []
  hydrate-twice [] e h = cc
  hydrate-twice (x ∷ es) e h = cc (hydrate-twice es e h)

  hydrated-again :
      (o : Option PendingDebounceState) (e : StoredObservationEnvelope) (due : ℕ)
      → hydrate_stored_observation_envelope e ≡ e
      → hydrated (some record { observations = hydrated o ++ e ∷ []; due_at = due })
        ≡ hydrated o ++ e ∷ []
  hydrated-again none e due h = cc
  hydrated-again (some q) e due h = hydrate-twice q.observations e h

  -- What a result has emitted and holds.
  abbrev accounted : NotifyDispatchResult → ℕ
  accounted d = count d.emitted + count (hydrated d.next_state.pending_debounce)

  config-accounted :
      (now : ℕ) (c : Option NotifyConfig) (e : StoredObservationEnvelope) (d : NotifyDispatchResult)
      → IsDebounced c
      → hydrate_stored_observation_envelope e ≡ e
      → accounted (dispatch_config now c e d) ≡ accounted d + count (e ∷ [])
  config-accounted now none e d i h = omega (arith, count-append d.emitted (e ∷ []))
  config-accounted now (some (debounce ms)) e d i h =
      rw (hydrated-again d.next_state.pending_debounce e (now + ms) h)
        (omega (arith, count-append (hydrated d.next_state.pending_debounce) (e ∷ [])))
  config-accounted now (some (throttle _)) e d i h = elim i [ ]
  config-accounted now (some (rollup _ _)) e d i h = elim i [ ]

  default-IsDebounced :
      (u : Urgency) (c : Option NotifyConfig)
      → IsDebounced c
      → IsDebounced (default_notify_config_for_urgency u c)
  default-IsDebounced u (some (debounce ms)) i = tt
  default-IsDebounced low none i = tt
  default-IsDebounced normal none i = tt
  default-IsDebounced high none i = tt
  default-IsDebounced u (some (throttle _)) i = elim i [ ]
  default-IsDebounced u (some (rollup _ _)) i = elim i [ ]

  one-accounted :
      (m : MonitorDefinition) (now : ℕ) (o : Observation) (d : NotifyDispatchResult)
      → IsDebounced m.notify
      → accounted (dispatch_one m now o d)
        ≡ accounted d + count (serialize_observation m now o ∷ [])
  unfolding dispatch_one
  one-accounted m now o d i =
      let e = serialize_observation m now o in
      elim (Bool-cases (is_escalated m o && is_some d.next_state.pending_debounce)) [
        | inl b ↦ rw b (
            omega (
              arith,
              count-append d.emitted (hydrated d.next_state.pending_debounce ++ e ∷ []),
              count-append (hydrated d.next_state.pending_debounce) (e ∷ []),
            ))
        | inr b ↦ rw b (
            config-accounted now
              (default_notify_config_for_urgency (effective_observation_urgency m o) m.notify) e d
              (default-IsDebounced (effective_observation_urgency m o) m.notify i) refl)
      ]

  all-accounted :
      (m : MonitorDefinition) (now : ℕ) (os : List Observation) (d : NotifyDispatchResult)
      → IsDebounced m.notify
      → accounted (dispatch_all m now os d)
        ≡ accounted d + count (map (serialize_observation m now) os)
  unfolding dispatch_all
  all-accounted m now [] d i = omega arith
  all-accounted m now (o ∷ os) d i = omega (
    arith,
    all-accounted m now os (dispatch_one m now o d) i,
    one-accounted m now o d i,
    count-append (serialize_observation m now o ∷ []) (map (serialize_observation m now) os),
  )

  flush-accounted :
      (now : ℕ) (s : NotifyRuntimeState) (o : Option PendingDebounceState)
      → s.pending_debounce ≡ o
      → accounted (flush_due now s o) ≡ count (hydrated s.pending_debounce)
  flush-accounted now s none h = rw h
  flush-accounted now s (some q) h = rw h (ground arith)

  strategy-accounted :
      (cron : Text → ℕ → Text → Bool) (m : MonitorDefinition) (observations : List Observation)
      (now : ℕ) (s : NotifyRuntimeState) (c : Option NotifyConfig)
      → m.notify ≡ c
      → IsDebounced c
      → accounted (dispatch_strategy cron m observations now s c)
        ≡ count (hydrated s.pending_debounce)
          + count (map (serialize_observation m now) observations)
  strategy-accounted cron m observations now s none h i = omega (
    arith,
    all-accounted m now observations (flush_due now s s.pending_debounce)
        (subst IsDebounced (sym h) i),
    flush-accounted now s s.pending_debounce refl,
  )
  strategy-accounted cron m observations now s (some (debounce ms)) h i = omega (
    arith,
    all-accounted m now observations (flush_due now s s.pending_debounce)
        (subst IsDebounced (sym h) i),
    flush-accounted now s s.pending_debounce refl,
  )
  strategy-accounted cron m observations now s (some (throttle _)) h i = elim i [ ]
  strategy-accounted cron m observations now s (some (rollup _ _)) h i = elim i [ ]

  -- A monitor without a strategy or with debounce loses and duplicates nothing in a tick: of the
  -- envelopes that pass any test, as many are emitted or held after it as were held before it or
  -- were observed in it.
  pub dispatch_conserves :
      (cron : Text → ℕ → Text → Bool) (m : MonitorDefinition) (observations : List Observation)
      (now : ℕ) (s : NotifyRuntimeState)
      → IsDebounced m.notify
      → count (dispatch_notify cron m observations now s).emitted
          + count (hydrated (dispatch_notify cron m observations now s).next_state.pending_debounce)
        ≡ count (hydrated s.pending_debounce)
          + count (map (serialize_observation m now) observations)
  unfolding dispatch_notify
  dispatch_conserves cron m observations now s i =
      strategy-accounted cron m observations now s m.notify refl i

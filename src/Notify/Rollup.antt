-- ===== src/Notify/Rollup.antt =====
-- The scheduled rollup: nothing is lost, and a window fires once in a minute.
use agent_monitors.Prelude.{
  true-false, ℕ, ◌/◌, ◌≡◌, refl, ap, ◌∙◌, ◌≢◌, ◌⊎◌, inl, inr, Bool, true, false, Option, none, some,
  List, [], ◌∷◌, ◌++◌, map, arith, Text, Bool-cases, or_else, codes, ◌==◌,
}
use agent_monitors.Event.{is_empty}
use agent_monitors.Notify.{
  rollup, MonitorDefinition, Observation, StoredObservationEnvelope, NotifyRuntimeState,
  serialize_observation, hydrate_stored_observation_envelope, window_fires, hydrated_rollup,
  held_rollup, dispatch_rollup, dispatch_strategy, dispatch_notify,
}

eq_num : (a b : ℕ) → (a == b) ≡ true → a ≡ b
eq_num a b h = ground arith

hydrate-rehydrate :
    (es : List StoredObservationEnvelope)
    → map hydrate_stored_observation_envelope (map hydrate_stored_observation_envelope es)
      ≡ map hydrate_stored_observation_envelope es
hydrate-rehydrate [] = refl
hydrate-rehydrate (e ∷ es) = cc (hydrate-rehydrate es)

hydrate-serialize :
    (m : MonitorDefinition) (now : ℕ) (os : List Observation)
    → map hydrate_stored_observation_envelope (map (serialize_observation m now) os)
      ≡ map (serialize_observation m now) os
hydrate-serialize m now [] = refl
hydrate-serialize m now (o ∷ os) = cc (hydrate-serialize m now os)

hydrate-append :
    (xs ys : List StoredObservationEnvelope)
    → map hydrate_stored_observation_envelope (xs ++ ys)
      ≡ map hydrate_stored_observation_envelope xs ++ map hydrate_stored_observation_envelope ys
hydrate-append [] ys = refl
hydrate-append (x ∷ xs) ys = cc (hydrate-append xs ys)

module _ (cron : Text → ℕ → Text → Bool) where
  dispatch-rollup :
      (window : Text) (timezone : Option Text) (m : MonitorDefinition)
      (observations : List Observation) (now : ℕ) (s : NotifyRuntimeState)
      → m.notify ≡ some (rollup window timezone)
      → dispatch_notify cron m observations now s
        ≡ dispatch_rollup cron window timezone m now observations
            (record s { pending_debounce = none })
  unfolding dispatch_notify
  dispatch-rollup window timezone m observations now s h =
      ap (dispatch_strategy cron m observations now s) h

  held-hydrated :
      (es : List StoredObservationEnvelope)
      → hydrated_rollup cron (held_rollup cron es) ≡ map hydrate_stored_observation_envelope es
  held-hydrated [] = refl
  held-hydrated (e ∷ es) = refl

  module _ (window : Text) (timezone : Option Text) (m : MonitorDefinition)
      (observations : List Observation) (now : ℕ) where
    -- The two conditions of the window, and what each gives.
    window_cases :
        (last : Option ℕ)
        → let matched = cron window now (or_else timezone (codes "UTC")) in
          ((window_fires cron window timezone now last ≡ true)
            × (matched ≡ true)
            × (last ≢ some (now / 60_000)))
          ⊎ ((window_fires cron window timezone now last ≡ false)
              × ((matched ≡ false) ⊎ (last ≡ some (now / 60_000))))
    window_cases none = elim (Bool-cases (cron window now (or_else timezone (codes "UTC")))) [
      | inl on ↦ inl (on, on, λ e. cc)
      | inr off ↦ inr (off, inl off)
    ]
    window_cases (some minute) =
        elim (Bool-cases (cron window now (or_else timezone (codes "UTC")))) [
          | inr off ↦ inr (ground arith, inl off)
          | inl on ↦ elim (Bool-cases (minute == now / 60_000)) [
            | inl same ↦ inr (ground arith, inr (ap some (eq_num minute (now / 60_000) same)))
            | inr other ↦ inl (ground arith, on, λ e. ground arith)
          ]
        ]

    accumulated : Option (List StoredObservationEnvelope) → List StoredObservationEnvelope
    accumulated held = hydrated_rollup cron held ++ map (serialize_observation m now) observations

    accumulated-hydrated :
        (held : Option (List StoredObservationEnvelope))
        → map hydrate_stored_observation_envelope (accumulated held) ≡ accumulated held
    unfolding accumulated
    accumulated-hydrated none = hydrate-serialize m now observations
    accumulated-hydrated (some es) =
        hydrate-append (map hydrate_stored_observation_envelope es)
          (map (serialize_observation m now) observations)
        ∙ cc (hydrate-rehydrate es, hydrate-serialize m now observations)

    -- A tick of a rollup monitor in a minute that the window's cron matches in its timezone, UTC
    -- without one, and in which the window has not fired, emits what was held, hydrated, and then
    -- what was observed, holds no batch after, and records the minute. Any other tick emits
    -- nothing, holds all of that in the same order, and keeps the minute of the last firing.
    pub rollup_keeps :
        (s : NotifyRuntimeState)
        → m.notify ≡ some (rollup window timezone)
        → let d = dispatch_notify cron m observations now s in
          let all =
            hydrated_rollup cron s.pending_rollup
            ++ map (serialize_observation m now) observations in
          let matched = cron window now (or_else timezone (codes "UTC")) in
          let fired = some (now / 60_000) in
          ((matched ≡ true)
            × (s.rollup_last_fired_minute ≢ fired)
            × (d.emitted ≡ all)
            × (d.next_state.pending_rollup ≡ none)
            × (d.next_state.rollup_last_fired_minute ≡ fired))
          ⊎ (((matched ≡ false) ⊎ (s.rollup_last_fired_minute ≡ fired))
              × (d.emitted ≡ [])
              × (hydrated_rollup cron d.next_state.pending_rollup ≡ all)
              × (d.next_state.rollup_last_fired_minute ≡ s.rollup_last_fired_minute))
    unfolding dispatch_rollup accumulated
    rollup_keeps s h = elim (window_cases s.rollup_last_fired_minute) [
      | inl (f, on, new) ↦
          rw (dispatch-rollup window timezone m observations now s h, f)
            (inl (on, new, refl, refl, refl))
      | inr (f, off) ↦
          rw (dispatch-rollup window timezone m observations now s h, f)
            (inr (
              off,
              refl,
              held-hydrated (accumulated s.pending_rollup) ∙ accumulated-hydrated s.pending_rollup,
              refl,
            ))
    ]

  fired_minute :
      (window : Text) (timezone : Option Text) (now : ℕ)
      → window_fires cron window timezone now (some (now / 60_000)) ≡ false
  fired_minute window timezone now = ground arith

  -- After a tick in which a rollup monitor emitted, another tick in the same minute emits nothing.
  pub rollup_once :
      (window : Text) (timezone : Option Text) (m : MonitorDefinition)
      (first second : List Observation) (now later : ℕ) (s : NotifyRuntimeState)
      → m.notify ≡ some (rollup window timezone)
      → is_empty (dispatch_notify cron m first now s).emitted ≡ false
      → now / 60_000 ≡ later / 60_000
      → (dispatch_notify cron m second later
          (dispatch_notify cron m first now s).next_state).emitted
        ≡ []
  unfolding dispatch_notify dispatch_rollup
  rollup_once window timezone m first second now later s h e same =
      elim (Bool-cases (window_fires cron window timezone now s.rollup_last_fired_minute)) [
        | inl f ↦ rw (h, f, same, fired_minute window timezone later) refl
        | inr f ↦ absurd (true-false (rw (h, f) at e))
      ]

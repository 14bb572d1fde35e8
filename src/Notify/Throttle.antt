-- ===== src/Notify/Throttle.antt =====
-- The throttle: the first observation goes out, and the next no sooner than `suppress-for` later.
use agent_monitors.Prelude.{
  true-false, ℕ, ◌+◌, ◌≤◌, ◌<◌, ◌≡◌, refl, ap, ◌∙◌, ◌⊎◌, inl, inr, Bool, true, false, none, some,
  List, [], ◌∷◌, ◌++◌, arith, Text, Bool-cases, Option, map, take, ltb,
}
use agent_monitors.Event.{is_empty}
use agent_monitors.Notify.{
  throttle, MonitorDefinition, Observation, StoredObservationEnvelope, NotifyRuntimeState,
  NotifyDispatchResult, serialize_observation, is_suppressed, flush_due, dispatch_one, dispatch_all,
  dispatch_strategy, dispatch_notify,
}

-- The throttle's window reaches beyond the time.
abbrev pub SuppressedAt : ℕ → NotifyRuntimeState → Type 0
SuppressedAt now s = (is_suppressed now s.suppressed_until ≡ true) × (s.pending_debounce ≡ none)

suppressed_cases :
    (now : ℕ) (u : Option ℕ)
    → ((until : ℕ) × (u ≡ some until) × (now < until) × (is_suppressed now u ≡ true))
      ⊎ (((u ≡ none) ⊎ ((until : ℕ) × (u ≡ some until) × (until ≤ now)))
          × (is_suppressed now u ≡ false))
suppressed_cases now none = inr (inl refl, refl)
suppressed_cases now (some until) = elim (Bool-cases (ltb now until)) [
  | inl early ↦ inl (until, refl, ground arith, early)
  | inr late ↦ inr (inr (until, refl, ground arith), late)
]

module _ (m : MonitorDefinition) (ms : ℕ) (h : m.notify ≡ some (throttle ms)) (now : ℕ) where
  one_suppressed :
      (o : Observation) (d : NotifyDispatchResult)
      → SuppressedAt now d.next_state
      → dispatch_one m now o d ≡ d
  unfolding dispatch_one
  one_suppressed o d s = rw (h, s.1, s.0) (ground arith)

  all_suppressed :
      (os : List Observation) (d : NotifyDispatchResult)
      → SuppressedAt now d.next_state
      → dispatch_all m now os d ≡ d
  unfolding dispatch_all
  all_suppressed [] d s = refl
  all_suppressed (o ∷ os) d s = rw (one_suppressed o d s) (all_suppressed os d s)

  one_open :
      (o : Observation) (d : NotifyDispatchResult)
      → is_suppressed now d.next_state.suppressed_until ≡ false
      → d.next_state.pending_debounce ≡ none
      → dispatch_one m now o d ≡ record {
        emitted = d.emitted ++ serialize_observation m now o ∷ [];
        next_state = record d.next_state { suppressed_until = some (now + ms) };
      }
  unfolding dispatch_one
  one_open o d s n = rw (h, s, n) (ground arith)

  after_open :
      (os : List Observation) (d : NotifyDispatchResult) (o : Observation)
      → 0 < ms
      → is_suppressed now d.next_state.suppressed_until ≡ false
      → d.next_state.pending_debounce ≡ none
      → dispatch_all m now (o ∷ os) d ≡ record {
        emitted = d.emitted ++ serialize_observation m now o ∷ [];
        next_state = record d.next_state { suppressed_until = some (now + ms) };
      }
  unfolding dispatch_all
  after_open os d o l s n = rw (one_open o d s n) (all_suppressed os _ (ground arith, n))

  module _ (cron : Text → ℕ → Text → Bool) where
    dispatch-throttle :
        (observations : List Observation) (s : NotifyRuntimeState)
        → s.pending_debounce ≡ none
        → dispatch_notify cron m observations now s
          ≡ dispatch_all m now observations (record { emitted = []; next_state = s })
    unfolding dispatch_notify
    dispatch-throttle observations s n =
        ap (dispatch_strategy cron m observations now s) h
        ∙ ap (λ o. dispatch_all m now observations (flush_due now s o)) n

    throttle_first :
        (observations : List Observation) (s : NotifyRuntimeState)
        → 0 < ms
        → s.pending_debounce ≡ none
        → is_suppressed now s.suppressed_until ≡ false
        → (dispatch_notify cron m observations now s).emitted
          ≡ map (serialize_observation m now) (take 1 observations)
    unfolding dispatch_all
    throttle_first [] s l n b = rw (dispatch-throttle [] s n) refl
    throttle_first (o ∷ os) s l n b =
        ap (λ r. r.emitted)
          (dispatch-throttle (o ∷ os) s n
            ∙ after_open os (record { emitted = []; next_state = s }) o l b n)

    -- Nothing goes out of a tick, or the first of its observations and the window opens anew.
    throttle_cases :
        (observations : List Observation) (s : NotifyRuntimeState)
        → 0 < ms
        → s.pending_debounce ≡ none
        → ((dispatch_notify cron m observations now s).emitted ≡ [])
          ⊎ ((e : StoredObservationEnvelope) × (dispatch_notify cron m observations now s ≡ record {
            emitted = e ∷ [];
            next_state = record s { suppressed_until = some (now + ms) };
          }))
    unfolding dispatch_all
    throttle_cases [] s l n = inl (rw (dispatch-throttle [] s n) refl)
    throttle_cases (o ∷ os) s l n = elim (Bool-cases (is_suppressed now s.suppressed_until)) [
      | inl b ↦ inl (
          ap (λ r. r.emitted)
            (dispatch-throttle (o ∷ os) s n
              ∙ all_suppressed (o ∷ os) (record { emitted = []; next_state = s }) (b, n)))
      | inr b ↦ inr (
        serialize_observation m now o,
        dispatch-throttle (o ∷ os) s n
            ∙ after_open os (record { emitted = []; next_state = s }) o l b n,
      )
    ]

module _ (m : MonitorDefinition) (ms : ℕ) (h : m.notify ≡ some (throttle ms))
    (cron : Text → ℕ → Text → Bool) where
  suppressed_until_later :
      (second : List Observation) (s : NotifyRuntimeState) (later until : ℕ)
      → later < until
      → s.pending_debounce ≡ none
      → (dispatch_notify cron m second later (record s { suppressed_until = some until })).emitted
        ≡ []
  suppressed_until_later second s later until l n =
      let t : NotifyRuntimeState = record s { suppressed_until = some until } in
      ap (λ r. r.emitted)
        (dispatch-throttle m ms h later cron second t n
          ∙ all_suppressed m ms h later second (record { emitted = []; next_state = t })
              (ground arith, n))

  -- A tick of a throttled monitor with a suppression time above zero that holds no debounce batch
  -- emits nothing before the time until which it is suppressed. At that time and after it, or when
  -- it never was suppressed, the tick emits the first of its observations alone, if it has one.
  pub throttle_one :
      (observations : List Observation) (now : ℕ) (s : NotifyRuntimeState)
      → 0 < ms
      → s.pending_debounce ≡ none
      → let d = dispatch_notify cron m observations now s in
        ((until : ℕ) × (s.suppressed_until ≡ some until) × (now < until) × (d.emitted ≡ []))
        ⊎ (((s.suppressed_until ≡ none)
              ⊎ ((until : ℕ) × (s.suppressed_until ≡ some until) × (until ≤ now)))
            × (d.emitted ≡ map (serialize_observation m now) (take 1 observations)))
  throttle_one observations now s l n = elim (suppressed_cases now s.suppressed_until) [
    | inl (until, u, early, b) ↦ inl (
      until,
      u,
      early,
      ap (λ r. r.emitted)
          (dispatch-throttle m ms h now cron observations s n
            ∙ all_suppressed m ms h now observations (record { emitted = []; next_state = s })
                (b, n)),
    )
    | inr (open_now, b) ↦ inr (open_now, throttle_first m ms h now cron observations s l n b)
  ]

  -- After a tick of a throttled monitor without a debounce batch that emitted something, every
  -- tick sooner than the suppression time later emits nothing.
  pub throttle_spaces :
      (first second : List Observation) (now later : ℕ) (s : NotifyRuntimeState)
      → 0 < ms
      → s.pending_debounce ≡ none
      → is_empty (dispatch_notify cron m first now s).emitted ≡ false
      → later < now + ms
      → (dispatch_notify cron m second later
          (dispatch_notify cron m first now s).next_state).emitted
        ≡ []
  throttle_spaces first second now later s l n f k =
      elim (throttle_cases m ms h now cron first s l n) [
        | inl e ↦ absurd (true-false (rw e at f))
        | inr (e, q) ↦ rw q (suppressed_until_later second s later (now + ms) k n)
      ]

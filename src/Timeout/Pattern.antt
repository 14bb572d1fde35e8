-- ===== src/Timeout/Pattern.antt =====
-- The whole pattern accepts exactly the texts that the parser accepts.
use agent_monitors.Prelude.{
  ℕ, zero, suc, ◌+◌, ◌-◌, ◌*◌, ◌/◌, ◌%◌, ◌<◌, ◌≡◌, refl, sym, ap, ◌∙◌, inl, inr, Bool, true, false,
  ◌&&◌, ◌||◌, [], ◌∷◌, ◌++◌, Text, leb, ltb, ◌==◌, ==_iff, if◌then◌else◌, all, arith, Bool-cases,
  decimal, decimal_upto, Option, none, some, is_some, subst,
}
use agent_monitors.Timeout.{
  is_digit, number_of, char, seq, matches, digit_range_of, digit_range_fragment,
  operation_timeout_pattern, pattern_accepts, parse_operation_timeout_ms, parse_duration,
  timeout_text, is_zero_length, has_leading_zero, bounded_timeout, milliseconds, duration_match,
  at_end,
}
use agent_monitors.Timeout.Reading.{digits_of, rest_of, leads}
use agent_monitors.Timeout.Bounds.{digit_range_accepts}

number_of-append : (n c : ℕ) (w : Text) → number_of n (w ++ c ∷ []) ≡ number_of n w * 10 + (c - 48)
unfolding number_of
number_of-append n c [] = refl
number_of-append n c (d ∷ w) = number_of-append (n * 10 + (d - 48)) c w

digits-append :
    (c : ℕ) (w : Text)
    → all is_digit w ≡ true
    → is_digit c ≡ true
    → all is_digit (w ++ c ∷ []) ≡ true
digits-append c [] h e = ground arith
digits-append c (d ∷ w) h e = ground (arith, digits-append c w)

decimal_value : (fuel n : ℕ) → n < fuel → number_of 0 (decimal_upto fuel n) ≡ n
unfolding decimal_upto
decimal_value zero n h = omega arith
decimal_value (suc fuel) n h = elim (Bool-cases (ltb n 10)) [
  | inl b ↦ rw b (unfold number_of in ground arith)
  | inr b ↦
      rw
        (
          b,
          number_of-append 0 (48 + n % 10) (decimal_upto fuel (n / 10)),
          decimal_value fuel (n / 10) (ground arith),
        )
        (omega arith)
]

decimal_digits : (fuel n : ℕ) → all is_digit (decimal_upto fuel n) ≡ true
unfolding decimal_upto
decimal_digits zero n = refl
decimal_digits (suc fuel) n = elim (Bool-cases (ltb n 10)) [
  | inl b ↦ rw b (ground arith)
  | inr b ↦ rw b (
      digits-append (48 + n % 10) (decimal_upto fuel (n / 10)) (decimal_digits fuel (n / 10))
        (ground arith))
]

-- A number above 0 begins with a digit above 0.
decimal_first :
    (fuel n : ℕ)
    → n < fuel
    → 0 < n
    → (d : ℕ) × (ds : Text) × (decimal_upto fuel n ≡ d ∷ ds) × (leb 49 d ≡ true)
unfolding decimal_upto
decimal_first zero n h p = absurd (omega arith)
decimal_first (suc fuel) n h p = elim (Bool-cases (ltb n 10)) [
  | inl b ↦ (48 + n, [], rw b refl, ground arith)
  | inr b ↦
      let (d, ds, e, l) = decimal_first fuel (n / 10) (ground arith) (ground arith) in
      (d, ds ++ (48 + n % 10) ∷ [], rw (b, e) refl, l)
]

module _ (next : Text → Bool)
    (stops : (c : ℕ) (u : Text) → is_digit c ≡ true → next (c ∷ u) ≡ false) where
  fragment_accepts :
      (n : ℕ) (t : Text)
      → 0 < n
      → matches (digit_range_fragment n) t next
        ≡ ((leads (digits_of t) && leb (number_of 0 (digits_of t)) n) && next (rest_of t))
  unfolding digit_range_fragment decimal
  fragment_accepts n t p =
      let (d, ds, e, l) = decimal_first (suc n) n (omega arith) p in
      let digits = subst (λ w. all is_digit w ≡ true) e (decimal_digits (suc n) n) in
      let value : number_of 0 (d ∷ ds) ≡ n =
        ap (number_of 0) (sym e) ∙ decimal_value (suc n) n (omega arith) in
      ap (λ w. matches (digit_range_of w) t next) e
      ∙ digit_range_accepts next stops d ds t l digits
      ∙ ap (λ m. (leads (digits_of t) && leb (number_of 0 (digits_of t)) m) && next (rest_of t))
          value

-- A unit and the end of the text.
abbrev unit_end : ℕ → Text → Bool
unit_end unit [] = false
unit_end unit (c ∷ u) = unit == c && at_end u

-- The parser on digits and rest.
abbrev parse_parts : Text → Text → Option ℕ
parse_parts w r =
    if is_zero_length (duration_match (w, r))
    then none
    else if has_leading_zero (duration_match (w, r))
    then none
    else bounded_timeout (milliseconds (duration_match (w, r)))

abbrev accepted_with : Text → Text → ℕ → ℕ → Bool
accepted_with w r unit bound = (leads w && leb (number_of 0 w) bound) && unit_end unit r

-- The four units of the pattern on digits and rest.
abbrev accepted_parts : Text → Text → Bool
accepted_parts w r =
    accepted_with w r 115 2_147_483
    || (accepted_with w r 109 35_791 || (accepted_with w r 104 596 || accepted_with w r 100 24))

unit_stops :
    (unit : ℕ)
    → is_digit unit ≡ false
    → (c : ℕ) (u : Text) → is_digit c ≡ true
    → matches (char unit) (c ∷ u) at_end ≡ false
unfolding matches
unit_stops unit n c u h = ground arith

unit_end_lem : (unit : ℕ) (u : Text) → matches (char unit) u at_end ≡ unit_end unit u
unfolding matches
unit_end_lem unit [] = refl
unit_end_lem unit (c ∷ u) = refl

unit_accepts :
    (unit n : ℕ) (t : Text)
    → is_digit unit ≡ false
    → 0 < n
    → matches (seq (digit_range_fragment n) (char unit)) t at_end
      ≡ accepted_with (digits_of t) (rest_of t) unit n
unfolding matches
unit_accepts unit n t h p =
    fragment_accepts (λ u. matches (char unit) u at_end) (unit_stops unit h) n t p
    ∙ ap (λ b. (leads (digits_of t) && leb (number_of 0 (digits_of t)) n) && b)
        (unit_end_lem unit (rest_of t))

no_leading :
    (c ms : ℕ) (ds : Text) → (c == 48) ≡ false → has_leading_zero (some (c ∷ ds, ms)) ≡ false
no_leading c ms [] z = refl
no_leading c ms (d ∷ ds) z = z

-- A number without a leading zero, with one unit.
unit_agrees :
    (c u : ℕ) (ds : Text)
    → (c == 48) ≡ false
    → is_some (parse_parts (c ∷ ds) (u ∷ [])) ≡ accepted_parts (c ∷ ds) (u ∷ [])
unit_agrees c u ds z = elim (Bool-cases (u == 115)) [
  | inl e ↦ rw ((==_iff u 115).0 e, z, no_leading c 1_000 ds z) (ground arith)
  | inr e ↦ elim (Bool-cases (u == 109)) [
    | inl f ↦ rw ((==_iff u 109).0 f, z, no_leading c 60_000 ds z) (ground arith)
    | inr f ↦ elim (Bool-cases (u == 104)) [
      | inl g ↦ rw ((==_iff u 104).0 g, z, no_leading c 3_600_000 ds z) (ground arith)
      | inr g ↦ elim (Bool-cases (u == 100)) [
        | inl h ↦ rw ((==_iff u 100).0 h, z, no_leading c 86_400_000 ds z) (ground arith)
        | inr h ↦ ground (arith, e, f, g, h)
      ]
    ]
  ]
]

zero_agrees :
    (c u : ℕ) (ds : Text)
    → (c == 48) ≡ true
    → is_some (parse_parts (c ∷ ds) (u ∷ [])) ≡ accepted_parts (c ∷ ds) (u ∷ [])
zero_agrees c u [] z = grind (arith, z)
zero_agrees c u (d ∷ ds) z = grind (arith, z)

parts_agree : (w r : Text) → is_some (parse_parts w r) ≡ accepted_parts w r
parts_agree [] r = refl
parts_agree (c ∷ ds) [] = ground arith
parts_agree (c ∷ ds) (u ∷ x ∷ r) = ground arith
parts_agree (c ∷ ds) (u ∷ []) = elim (Bool-cases (c == 48)) [
  | inl z ↦ zero_agrees c u ds z
  | inr z ↦ unit_agrees c u ds z
]

-- The schema's pattern accepts a text exactly when the parser of the runtime gives a deadline for it.
pub pattern-parser :
    (t : Text) → pattern_accepts t ≡ is_some (parse_operation_timeout_ms (timeout_text t))
unfolding pattern_accepts operation_timeout_pattern matches parse_operation_timeout_ms
    parse_duration
pattern-parser t =
    rw
      (
        unit_accepts 115 2_147_483 t refl (omega arith),
        unit_accepts 109 35_791 t refl (omega arith),
        unit_accepts 104 596 t refl (omega arith),
        unit_accepts 100 24 t refl (omega arith),
      )
      (sym (parts_agree (digits_of t) (rest_of t)))

-- ===== src/Timeout/Tests.antt =====
-- Deadlines that are accepted and refused, and the range of the days at one text.
use agent_monitors.Prelude.{
  is_some, ℕ, ◌≡◌, refl, true, false, Bool, ◌&&◌, none, some, [], ◌∷◌, Text, codes, leb, arith,
}
use agent_monitors.Timeout.{
  is_digit, split_digits, number_of, parse_duration, parse_operation_timeout_ms, timeout_text, char,
  matches, match_digits, zero_range_fragment, shorter_or, digit_range_of, at_end, pattern_accepts,
}
use agent_monitors.Timeout.Reading.{digits_of, rest_of, leads}
use agent_monitors.Timeout.Bounds.{digit_range_accepts}
use agent_monitors.Timeout.Pattern.{pattern-parser}

accepted : parse_operation_timeout_ms (timeout_text (codes "24d")) ≡ some 2_073_600_000
unfolding parse_operation_timeout_ms parse_duration split_digits number_of
accepted = refl

too_long : parse_operation_timeout_ms (timeout_text (codes "25d")) ≡ none
unfolding parse_operation_timeout_ms parse_duration split_digits number_of
too_long = refl

leading_zero : parse_operation_timeout_ms (timeout_text (codes "01s")) ≡ none
unfolding parse_operation_timeout_ms parse_duration split_digits number_of
leading_zero = refl

zero_length : parse_operation_timeout_ms (timeout_text (codes "000m")) ≡ none
unfolding parse_operation_timeout_ms parse_duration split_digits number_of
zero_length = refl

-- The unit `d` and the end.
abbrev days_end : Text → Bool
days_end u = matches (char 100) u at_end

days_stop : (c : ℕ) (u : Text) → is_digit c ≡ true → days_end (c ∷ u) ≡ false
unfolding matches
days_stop c u h = ground arith

range_run : matches (digit_range_of (codes "24")) (codes "23d") days_end ≡ true
unfolding matches match_digits zero_range_fragment shorter_or digit_range_of
range_run = refl

range_refuses : matches (digit_range_of (codes "24")) (codes "25d") days_end ≡ false
unfolding matches match_digits zero_range_fragment shorter_or digit_range_of
range_refuses = refl

digit_range_accepts_example : matches (digit_range_of (codes "24")) (codes "23d") days_end ≡ (
    (leads (digits_of (codes "23d"))
      && leb (number_of 0 (digits_of (codes "23d"))) (number_of 0 (codes "24")))
    && days_end (rest_of (codes "23d")))
digit_range_accepts_example =
    digit_range_accepts days_end days_stop 50 (52 ∷ []) (codes "23d") refl refl

pattern-parser_example :
    pattern_accepts (codes "24d")
    ≡ is_some (parse_operation_timeout_ms (timeout_text (codes "24d")))
pattern-parser_example = pattern-parser (codes "24d")

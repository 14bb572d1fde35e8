-- ===== src/Timeout.antt =====
-- libs/core/src/notify/notifier.ts: durations, the deadline of an operation, and the pattern that
-- the authoring schema checks a deadline by. The texts of the regular expressions are syntax
-- trees here, matched by backtracking. A refusal is `none`. `Number` is exact up to 2 ^ 53, far
-- above every deadline that is accepted; above that the source rounds and the model does not.
pub mod Ranges
pub mod Values
pub mod Reading
pub mod Bounds
pub mod Pattern
mod Tests
use agent_monitors.Prelude.{
  ℕ, zero, suc, ◌+◌, ◌-◌, ◌*◌, ◌/◌, Bool, true, false, ◌&&◌, ◌||◌, not, Option, none, some, List,
  [], ◌∷◌, Text, length, leb, ltb, ◌==◌, if◌then◌else◌, all, decimal,
}

abbrev pub is_digit : ℕ → Bool
is_digit c = leb 48 c && leb c 57

-- The digits that a text begins with, and the rest.
unfoldable pub split_digits : Text → Text × Text
split_digits [] = ([], [])
split_digits (c ∷ t) =
    let rest = split_digits t in if is_digit c then (c ∷ rest.0, rest.1) else ([], c ∷ t)

-- `Number(digits)`
unfoldable pub number_of : ℕ → Text → ℕ
number_of n [] = n
number_of n (c ∷ t) = number_of (n * 10 + (c - 48)) t

-- `OPERATION_TIMEOUT_UNIT_MS`, and the `switch` of `parseDuration`.
abbrev pub unit_ms : ℕ → Option ℕ
unit_ms u =
    if u == 115
    then some 1_000
    else if u == 109
    then some 60_000
    else if u == 104
    then some 3_600_000
    else if u == 100
    then some 86_400_000
    else none

-- The match of `^(\d+)([smhd])$`: the digits and the unit's milliseconds.
abbrev pub duration_match : Text × Text → Option (Text × ℕ)
duration_match ([], rest) = none
duration_match (c ∷ ds, u ∷ []) = elim (unit_ms u) [ none ↦ none | some ms ↦ some (c ∷ ds, ms) ]
duration_match (_, _) = none

abbrev pub milliseconds : Option (Text × ℕ) → Option ℕ
milliseconds none = none
milliseconds (some (digits, ms)) = some (number_of 0 digits * ms)

unfoldable pub parse_duration : Text → Option ℕ
parse_duration t = milliseconds (duration_match (split_digits t))

abbrev pub default_operation_timeout_ms : ℕ
default_operation_timeout_ms = 30_000

abbrev pub max_operation_timeout_ms : ℕ
max_operation_timeout_ms = 2_147_483_647

-- `config['timeout']`: absent, a value of another type, or a text.
pub data RawTimeout : Type 0 where
  omitted : RawTimeout
  not_text : RawTimeout
  timeout_text : Text → RawTimeout

-- The matches of `^0+[smhd]$` and of `^0\d+[smhd]$`.
abbrev pub is_zero_length : Option (Text × ℕ) → Bool
is_zero_length none = false
is_zero_length (some (digits, ms)) = all (λ c. c == 48) digits

abbrev pub has_leading_zero : Option (Text × ℕ) → Bool
has_leading_zero (some (c ∷ d ∷ digits, ms)) = c == 48
has_leading_zero _ = false

abbrev pub bounded_timeout : Option ℕ → Option ℕ
bounded_timeout none = none
bounded_timeout (some ms) = if ltb max_operation_timeout_ms ms then none else some ms

abbrev pub parse_timeout_text : Text → Option ℕ
parse_timeout_text t =
    if is_zero_length (duration_match (split_digits t))
    then none
    else if has_leading_zero (duration_match (split_digits t))
    then none
    else bounded_timeout (parse_duration t)

unfoldable pub parse_operation_timeout_ms : RawTimeout → Option ℕ
parse_operation_timeout_ms omitted = some default_operation_timeout_ms
parse_operation_timeout_ms not_text = none
parse_operation_timeout_ms (timeout_text t) = parse_timeout_text t

-- A regular expression without anchors: a character, a range, `[0-9]{n}`, a sequence, a choice.
pub data Fragment : Type 0 where
  char : ℕ → Fragment
  range : ℕ → ℕ → Fragment
  digits : ℕ → Fragment
  seq : Fragment → Fragment → Fragment
  alt : Fragment → Fragment → Fragment

unfoldable pub match_digits : ℕ → Text → (Text → Bool) → Bool
match_digits zero t next = next t
match_digits (suc n) [] next = false
match_digits (suc n) (c ∷ t) next = is_digit c && match_digits n t next

-- Whether a fragment matches a prefix of the text whose rest passes `next`.
unfoldable pub matches : Fragment → Text → (Text → Bool) → Bool
matches (char a) [] next = false
matches (char a) (c ∷ t) next = a == c && next t
matches (range a b) [] next = false
matches (range a b) (c ∷ t) next = (leb a c && leb c b) && next t
matches (digits n) t next = match_digits n t next
matches (seq f g) t next = matches f t (λ u. matches g u next)
matches (alt f g) t next = matches f t next || matches g t next

abbrev pub char_upto : ℕ → Fragment
char_upto d = if d == 48 then char 48 else range 48 d

unfoldable pub zero_range_fragment : Text → Fragment
zero_range_fragment [] = digits 0
zero_range_fragment (d ∷ []) = char_upto d
zero_range_fragment (d ∷ e ∷ rest) =
    let tail = seq (char d) (zero_range_fragment (e ∷ rest)) in
    if d == 48 then tail else alt (seq (char_upto (d - 1)) (digits (length (e ∷ rest)))) tail

-- The branches of the lengths below `n`, then the given one.
unfoldable pub shorter_or : ℕ → Fragment → Fragment
shorter_or zero last = last
shorter_or (suc n) last = shorter_or n (alt (seq (range 49 57) (digits n)) last)

unfoldable pub digit_range_of : Text → Fragment
digit_range_of [] = digits 0
digit_range_of (d ∷ []) = range 49 d
digit_range_of (d ∷ e ∷ rest) =
    let last = seq (char d) (zero_range_fragment (e ∷ rest)) in
    shorter_or (length (e ∷ rest))
      (if d == 49 then last else alt (seq (range 49 (d - 1)) (digits (length (e ∷ rest)))) last)

unfoldable pub digit_range_fragment : ℕ → Fragment
digit_range_fragment n = digit_range_of (decimal n)

abbrev pub unit_fragment : ℕ → ℕ → Fragment
unit_fragment unit ms = seq (digit_range_fragment (max_operation_timeout_ms / ms)) (char unit)

unfoldable pub operation_timeout_pattern : Fragment
operation_timeout_pattern = alt (unit_fragment 115 1_000) (
    alt (unit_fragment 109 60_000)
      (alt (unit_fragment 104 3_600_000) (unit_fragment 100 86_400_000)))

abbrev pub at_end : Text → Bool
at_end [] = true
at_end (c ∷ t) = false

-- `OPERATION_TIMEOUT_PATTERN.test(t)`
unfoldable pub pattern_accepts : Text → Bool
pattern_accepts t = matches operation_timeout_pattern t at_end

-- ===== src/Timeout/Bounds.antt =====
-- A digit range accepts exactly the numbers from 1 up to its bound, without a leading zero.
use agent_monitors.Prelude.{
  ℕ, suc, ◌-◌, ◌≡◌, refl, sym, ap, ◌∙◌, inl, inr, Bool, true, false, ◌&&◌, ◌||◌, not, [], ◌∷◌, Text,
  length, leb, ltb, ◌==◌, ==_iff, leb→le, if◌then◌else◌, all, arith, Bool-cases,
}
use agent_monitors.Timeout.{
  is_digit, split_digits, number_of, Fragment, char, range, digits, seq, alt, match_digits, matches,
  zero_range_fragment, shorter_or, digit_range_of,
}
use agent_monitors.Timeout.Ranges.{matches-zero_range}
use agent_monitors.Timeout.Values.{number_of-compare, number_of-shorter, number_of-longer}
use agent_monitors.Timeout.Reading.{
  digits_of, rest_of, digits_of-all, leads, digits_of-digit, rest_of-digit, digits_of-other,
  match_digits-split, below-split, shorter-split,
}

-- The longest branches of `digitRangeFragment`.
abbrev same_length : ℕ → Text → Fragment
same_length d [] = range 49 d
same_length d (e ∷ ds) =
    let last = seq (char d) (zero_range_fragment (e ∷ ds)) in
    if d == 49 then last else alt (seq (range 49 (d - 1)) (digits (length (e ∷ ds)))) last

digit_range_of-parts :
    (d : ℕ) (ds : Text) → digit_range_of (d ∷ ds) ≡ shorter_or (length ds) (same_length d ds)
unfolding digit_range_of shorter_or
digit_range_of-parts d [] = refl
digit_range_of-parts d (e ∷ ds) = refl

all_parts :
    (d : ℕ) (ds : Text)
    → all is_digit (d ∷ ds) ≡ true
    → (is_digit d ≡ true) × (all is_digit ds ≡ true)
all_parts d ds h = ground arith

-- The choice of the first digit, and what the number's comparison says of it.
pick_one :
    (d c : ℕ) (q v n : Bool)
    → (d == 49) ≡ true
    → is_digit c ≡ true
    → (d == c && (q && (v && n)))
      ≡ (q && ((not (c == 48) && (if ltb c d then true else (c == d) && v)) && n))
pick_one d c q v n h k = ground arith

pick_other :
    (d c : ℕ) (q v n : Bool)
    → leb 49 d ≡ true
    → (d == 49) ≡ false
    → is_digit c ≡ true
    → (((leb 49 c && leb c (d - 1)) && (q && n)) || (d == c && (q && (v && n))))
      ≡ (q && ((not (c == 48) && (if ltb c d then true else (c == d) && v)) && n))
pick_other d c q v n h z k = ground arith

pick_single :
    (d c : ℕ) (n : Bool)
    → leb 49 d ≡ true
    → is_digit c ≡ true
    → ((leb 49 c && leb c d) && n)
      ≡ ((not (c == 48) && (if ltb c d then true else (c == d) && true)) && n)
pick_single d c n h k = ground arith

and_false : (a : Bool) → (a && false) ≡ false
and_false a = ground arith

empty_number : (w : Text) → (length w == 0) ≡ true → leb (number_of 0 w) (number_of 0 []) ≡ true
unfolding number_of
empty_number [] h = refl
empty_number (c ∷ w) h = ground arith

-- Shorter numbers are below the bound and longer ones above it.
by_length :
    (d : ℕ) (ds w : Text) (n : Bool)
    → leb 49 d ≡ true
    → all is_digit (d ∷ ds) ≡ true
    → all is_digit w ≡ true
    → (((leads w && leb (length w) (length ds)) && n)
        || ((length w == suc (length ds))
            && ((leads w && leb (number_of 0 w) (number_of 0 (d ∷ ds))) && n)))
      ≡ ((leads w && leb (number_of 0 w) (number_of 0 (d ∷ ds))) && n)
by_length d ds [] n h k a = ground arith
by_length d ds (c ∷ w) n h k a = elim (Bool-cases (c == 48)) [
  | inl z ↦ rw z (ground arith)
  | inr z ↦ elim (Bool-cases (leb (length (c ∷ w)) (length ds))) [
    | inl s ↦
        rw (s, number_of-shorter d (c ∷ w) ds a h (leb→le (length (c ∷ w)) (length ds) s))
          (ground arith)
    | inr s ↦ elim (Bool-cases (length w == length ds)) [
      | inl q ↦ ground (arith, q, s)
      | inr q ↦ rw (s, number_of-longer c d w ds k (ground arith) (ground arith)) (ground arith)
    ]
  ]
]

no_digit :
    (d c : ℕ) (n : Bool)
    → is_digit d ≡ true
    → is_digit c ≡ false
    → ((leb 49 c && leb c d) && n) ≡ false
no_digit d c n h e = ground arith

no_char : (d c : ℕ) (n : Bool) → is_digit d ≡ true → is_digit c ≡ false → (d == c && n) ≡ false
no_char d c n h e = ground arith

no_choice :
    (d c : ℕ) (m n : Bool)
    → is_digit d ≡ true
    → is_digit c ≡ false
    → (((leb 49 c && leb c (d - 1)) && m) || (d == c && n)) ≡ false
no_choice d c m n h e = ground arith

module _ (next : Text → Bool)
    (stops : (c : ℕ) (u : Text) → is_digit c ≡ true → next (c ∷ u) ≡ false) where
  same_length-first :
      (d c : ℕ) (ds t : Text)
      → leb 49 d ≡ true
      → all is_digit (d ∷ ds) ≡ true
      → is_digit c ≡ true
      → matches (same_length d ds) (c ∷ t) next ≡ (
          (length (digits_of t) == length ds)
          && ((not (c == 48)
                && (if ltb c d
                    then true
                    else (c == d) && leb (number_of 0 (digits_of t)) (number_of 0 ds)))
              && next (rest_of t)))
  unfolding matches match_digits
  same_length-first d c [] t h k e =
      ap (λ n. (leb 49 c && leb c d) && n) (match_digits-split next stops 0 t)
      ∙ elim (Bool-cases (length (digits_of t) == 0)) [
        | inl q ↦ rw (q, empty_number (digits_of t) q) (pick_single d c (next (rest_of t)) h e)
        | inr q ↦ rw q (and_false (leb 49 c && leb c d))
      ]
  same_length-first d c (f ∷ ds) t h k e =
      let rest = (all_parts d (f ∷ ds) k).1 in
      elim (Bool-cases (d == 49)) [
        | inl z ↦
            rw (z, matches-zero_range (f ∷ ds) t next rest, below-split next stops (f ∷ ds) t rest)
              (pick_one d c (length (digits_of t) == length (f ∷ ds))
                (leb (number_of 0 (digits_of t)) (number_of 0 (f ∷ ds))) (next (rest_of t)) z e)
        | inr z ↦
            rw
              (
                z,
                matches-zero_range (f ∷ ds) t next rest,
                below-split next stops (f ∷ ds) t rest,
                match_digits-split next stops (length (f ∷ ds)) t,
              )
              (pick_other d c (length (digits_of t) == length (f ∷ ds))
                (leb (number_of 0 (digits_of t)) (number_of 0 (f ∷ ds))) (next (rest_of t)) h z e)
      ]

  same_length-none : (d : ℕ) (ds : Text) → matches (same_length d ds) [] next ≡ false
  unfolding matches
  same_length-none d [] = refl
  same_length-none d (f ∷ ds) = elim (Bool-cases (d == 49)) [
    | inl z ↦ rw z refl
    | inr z ↦ rw z refl
  ]

  same_length-nodigit :
      (d c : ℕ) (ds t : Text)
      → is_digit d ≡ true
      → is_digit c ≡ false
      → matches (same_length d ds) (c ∷ t) next ≡ false
  unfolding matches
  same_length-nodigit d c [] t h e = no_digit d c (next t) h e
  same_length-nodigit d c (f ∷ ds) t h e = elim (Bool-cases (d == 49)) [
    | inl z ↦ rw z (no_char d c (matches (zero_range_fragment (f ∷ ds)) t next) h e)
    | inr z ↦ rw z (
        no_choice d c (match_digits (length (f ∷ ds)) t next)
          (matches (zero_range_fragment (f ∷ ds)) t next) h e)
  ]

  -- The numbers of the bound's own length.
  same_length-split :
      (d : ℕ) (ds t : Text)
      → leb 49 d ≡ true
      → all is_digit (d ∷ ds) ≡ true
      → matches (same_length d ds) t next ≡ (
          (length (digits_of t) == suc (length ds))
          && ((leads (digits_of t) && leb (number_of 0 (digits_of t)) (number_of 0 (d ∷ ds)))
              && next (rest_of t)))
  same_length-split d ds [] h k =
      same_length-none d ds ∙ sym (unfold split_digits in and_false (0 == suc (length ds)))
  same_length-split d ds (c ∷ t) h k = elim (Bool-cases (is_digit c)) [
    | inr e ↦
        same_length-nodigit d c ds t (all_parts d ds k).0 e
        ∙ sym (rw (digits_of-other c t e) (and_false (0 == suc (length ds))))
    | inl e ↦
        same_length-first d c ds t h k e ∙ elim (Bool-cases (length (digits_of t) == length ds)) [
          | inl q ↦
              rw
                (
                  digits_of-digit c t e,
                  rest_of-digit c t e,
                  q,
                  number_of-compare c d (digits_of t) ds e (all_parts d ds k).0 (digits_of-all t)
                      (all_parts d ds k).1 ((==_iff (length (digits_of t)) (length ds)).0 q),
                )
                (ground (arith, q))
          | inr q ↦ rw (digits_of-digit c t e, q) (ground (arith, q))
        ]
  ]

  -- A digit range that ends where no digit follows accepts exactly the digits of a number from 1 up
  -- to its bound, without a leading zero, with a rest that may follow; the bound is any number
  -- written without a leading zero.
  pub digit_range_accepts :
      (d : ℕ) (ds t : Text)
      → leb 49 d ≡ true
      → all is_digit (d ∷ ds) ≡ true
      → matches (digit_range_of (d ∷ ds)) t next ≡ (
          (leads (digits_of t) && leb (number_of 0 (digits_of t)) (number_of 0 (d ∷ ds)))
          && next (rest_of t))
  digit_range_accepts d ds t h k =
      rw
        (
          digit_range_of-parts d ds,
          shorter-split next stops (length ds) (same_length d ds) t,
          same_length-split d ds t h k,
        )
        (by_length d ds (digits_of t) (next (rest_of t)) h k (digits_of-all t))

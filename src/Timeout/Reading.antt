-- ===== src/Timeout/Reading.antt =====
-- A digit range followed by what cannot begin with a digit reads all the leading digits of a text.
use agent_monitors.Prelude.{
  ℕ, zero, suc, ◌≡◌, refl, ◌∙◌, inl, inr, Bool, true, false, ◌&&◌, ◌||◌, not, [], ◌∷◌, Text, length,
  leb, ◌==◌, ==_iff, all, arith, Bool-cases,
}
use agent_monitors.Timeout.{
  is_digit, split_digits, number_of, Fragment, range, digits, seq, alt, match_digits, matches,
  shorter_or,
}
use agent_monitors.Timeout.Ranges.{below}
use agent_monitors.Timeout.Values.{number_of-compare}

abbrev pub digits_of : Text → Text
digits_of t = (split_digits t).0

abbrev pub rest_of : Text → Text
rest_of t = (split_digits t).1

pub digits_of-digit : (c : ℕ) (t : Text) → is_digit c ≡ true → digits_of (c ∷ t) ≡ c ∷ digits_of t
unfolding split_digits
digits_of-digit c t e = rw (e, digits_of) refl

pub rest_of-digit : (c : ℕ) (t : Text) → is_digit c ≡ true → rest_of (c ∷ t) ≡ rest_of t
unfolding split_digits
rest_of-digit c t e = rw (e, rest_of) refl

pub digits_of-other : (c : ℕ) (t : Text) → is_digit c ≡ false → digits_of (c ∷ t) ≡ []
unfolding split_digits
digits_of-other c t e = rw (e, digits_of) refl

rest_of-other : (c : ℕ) (t : Text) → is_digit c ≡ false → rest_of (c ∷ t) ≡ c ∷ t
unfolding split_digits
rest_of-other c t e = rw (e, rest_of) refl

pub digits_of-all : (t : Text) → all is_digit (digits_of t) ≡ true
digits_of-all [] = unfold split_digits in refl
digits_of-all (c ∷ t) = elim (Bool-cases (is_digit c)) [
  | inl e ↦ rw (digits_of-digit c t e) (ground (arith, digits_of-all t))
  | inr e ↦ rw (digits_of-other c t e) refl
]

-- The first digit is there and is not 0.
abbrev pub leads : Text → Bool
leads [] = false
leads (c ∷ w) = not (c == 48)

module _ (next : Text → Bool)
    (stops : (c : ℕ) (u : Text) → is_digit c ≡ true → next (c ∷ u) ≡ false) where
  pub match_digits-split :
      (n : ℕ) (t : Text) → match_digits n t next ≡ ((length (digits_of t) == n) && next (rest_of t))
  unfolding match_digits
  match_digits-split zero [] = unfold split_digits in refl
  match_digits-split zero (c ∷ t) = elim (Bool-cases (is_digit c)) [
    | inl e ↦ rw (digits_of-digit c t e, rest_of-digit c t e, stops c t e) (ground arith)
    | inr e ↦ rw (digits_of-other c t e, rest_of-other c t e) refl
  ]
  match_digits-split (suc n) [] = unfold split_digits in ground arith
  match_digits-split (suc n) (c ∷ t) = elim (Bool-cases (is_digit c)) [
    | inl e ↦ rw (digits_of-digit c t e, rest_of-digit c t e, match_digits-split n t) (ground arith)
    | inr e ↦ rw (digits_of-other c t e, rest_of-other c t e) (ground arith)
  ]

  pub below-split :
      (ds t : Text)
      → all is_digit ds ≡ true
      → below ds t next ≡ (
          (length (digits_of t) == length ds)
          && (leb (number_of 0 (digits_of t)) (number_of 0 ds) && next (rest_of t)))
  unfolding below
  below-split [] [] h = unfold number_of split_digits in refl
  below-split [] (c ∷ t) h = elim (Bool-cases (is_digit c)) [
    | inl e ↦ rw (digits_of-digit c t e, rest_of-digit c t e, stops c t e) (ground arith)
    | inr e ↦ rw (digits_of-other c t e, rest_of-other c t e) (unfold number_of in refl)
  ]
  below-split (d ∷ ds) [] h = unfold split_digits in ground arith
  below-split (d ∷ ds) (c ∷ t) h = elim (Bool-cases (is_digit c)) [
    | inl e ↦
        rw
          (
            digits_of-digit c t e,
            rest_of-digit c t e,
            match_digits-split (length ds) t,
            below-split ds t (ground arith),
          )
          (elim (Bool-cases (length (digits_of t) == length ds)) [
            | inl q ↦
                rw
                  (
                    q,
                    number_of-compare c d (digits_of t) ds e (ground arith) (digits_of-all t)
                        (ground arith) ((==_iff (length (digits_of t)) (length ds)).0 q),
                  )
                  (ground arith)
            | inr q ↦ ground arith
          ])
    | inr e ↦ rw (digits_of-other c t e, rest_of-other c t e) (ground arith)
  ]

  pub shorter-split :
      (n : ℕ) (last : Fragment) (t : Text)
      → matches (shorter_or n last) t next ≡ (
          ((leads (digits_of t) && leb (length (digits_of t)) n) && next (rest_of t))
          || matches last t next)
  unfolding shorter_or matches
  shorter-split zero last [] = unfold split_digits in refl
  shorter-split zero last (c ∷ t) = elim (Bool-cases (is_digit c)) [
    | inl e ↦ rw (digits_of-digit c t e, rest_of-digit c t e) (ground arith)
    | inr e ↦ rw (digits_of-other c t e) refl
  ]
  shorter-split (suc n) last [] =
      shorter-split n (alt (seq (range 49 57) (digits n)) last) [] ∙ (unfold split_digits in refl)
  shorter-split (suc n) last (c ∷ t) =
      shorter-split n (alt (seq (range 49 57) (digits n)) last) (c ∷ t)
      ∙ elim (Bool-cases (is_digit c)) [
        | inl e ↦
            rw (digits_of-digit c t e, rest_of-digit c t e, match_digits-split n t) (ground arith)
        | inr e ↦ rw (digits_of-other c t e) (ground arith)
      ]

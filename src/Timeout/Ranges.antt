-- ===== src/Timeout/Ranges.antt =====
-- The fragments of digit ranges accept exactly the digit strings up to their bound.
use agent_monitors.Prelude.{
  ℕ, ◌-◌, ◌≡◌, refl, ◌∙◌, inl, inr, Bool, true, false, ◌&&◌, ◌||◌, [], ◌∷◌, Text, length, leb, ltb,
  ◌==◌, if◌then◌else◌, all, arith, Bool-cases,
}
use agent_monitors.Timeout.{is_digit, match_digits, matches, char_upto, zero_range_fragment}

-- A digit string of the length of the bound and not above it, read digit by digit.
unfoldable pub below : Text → Text → (Text → Bool) → Bool
below [] t next = next t
below (d ∷ ds) [] next = false
below (d ∷ ds) (c ∷ t) next =
    let rest = below ds t next in
    if ltb c d
    then is_digit c && match_digits (length ds) t next
    else (c == d) && (is_digit c && rest)

matches-char_upto :
    (d c : ℕ) (t : Text) (next : Text → Bool)
    → is_digit d ≡ true
    → matches (char_upto d) (c ∷ t) next ≡ ((leb 48 c && leb c d) && next t)
unfolding matches
matches-char_upto d c t next h = elim (Bool-cases (d == 48)) [
  | inl e ↦ rw e (ground arith)
  | inr e ↦ rw e refl
]

-- One digit of the bound above 0, and the digit 0.
pick_digit :
    (d c : ℕ) (m b : Bool)
    → is_digit d ≡ true
    → (d == 48) ≡ false
    → (((leb 48 c && leb c (d - 1)) && m) || (d == c && b))
      ≡ (if ltb c d then is_digit c && m else (c == d) && (is_digit c && b))
pick_digit d c m b h n = ground arith

pick_zero :
    (d c : ℕ) (m b : Bool)
    → (d == 48) ≡ true
    → (d == c && b) ≡ (if ltb c d then is_digit c && m else (c == d) && (is_digit c && b))
pick_zero d c m b n = ground arith

last_digit :
    (d c : ℕ) (b : Bool)
    → is_digit d ≡ true
    → ((leb 48 c && leb c d) && b)
      ≡ (if ltb c d then is_digit c && b else (c == d) && (is_digit c && b))
last_digit d c b h = ground arith

digit_before : (d : ℕ) → is_digit d ≡ true → (d == 48) ≡ false → is_digit (d - 1) ≡ true
digit_before d h n = ground arith

first_digit : (d : ℕ) (b : Bool) → (is_digit d && b) ≡ true → (is_digit d ≡ true) × (b ≡ true)
first_digit d b h = ground arith

upto_nil : (d : ℕ) (next : Text → Bool) → matches (char_upto d) [] next ≡ false
unfolding matches
upto_nil d next = elim (Bool-cases (d == 48)) [ inl e ↦ rw e refl | inr e ↦ rw e refl ]

zero_range-nil :
    (d e : ℕ) (ds : Text) (next : Text → Bool)
    → matches (zero_range_fragment (d ∷ e ∷ ds)) [] next ≡ false
unfolding matches zero_range_fragment
zero_range-nil d e ds next = elim (Bool-cases (d == 48)) [
  | inl z ↦ rw z refl
  | inr z ↦ rw (z, upto_nil (d - 1)) refl
]

pub matches-zero_range :
    (ds t : Text) (next : Text → Bool)
    → all is_digit ds ≡ true
    → matches (zero_range_fragment ds) t next ≡ below ds t next
unfolding matches zero_range_fragment below match_digits
matches-zero_range [] t next h = refl
matches-zero_range (d ∷ []) [] next h = upto_nil d next
matches-zero_range (d ∷ []) (c ∷ t) next h =
    matches-char_upto d c t next (first_digit d true h).0
    ∙ last_digit d c (next t) (first_digit d true h).0
matches-zero_range (d ∷ e ∷ ds) [] next h = zero_range-nil d e ds next
matches-zero_range (d ∷ e ∷ ds) (c ∷ t) next h =
    let (digit, rest) = first_digit d (all is_digit (e ∷ ds)) h in
    let m = match_digits (length (e ∷ ds)) t next in
    let same = matches-zero_range (e ∷ ds) t next rest in
    elim (Bool-cases (d == 48)) [
      | inl z ↦ rw (z, same) (pick_zero d c m (below (e ∷ ds) t next) z)
      | inr z ↦
          rw
            (
              z,
              same,
              matches-char_upto (d - 1) c t (λ u. match_digits (length (e ∷ ds)) u next)
                  (digit_before d digit z),
            )
            (pick_digit d c m (below (e ∷ ds) t next) digit z)
    ]

-- ===== src/Timeout/Values.antt =====
-- The number that a digit string writes.
use agent_monitors.Prelude.{
  ℕ, zero, suc, ◌+◌, ◌-◌, ◌*◌, ◌≤◌, ◌<◌, ◌≡◌, sym, true, false, ◌&&◌, [], ◌∷◌, Text, length, leb,
  ltb, ◌==◌, ==_iff, le→leb, if◌then◌else◌, Bool-cases, inl, inr, subst, all, arith,
}
use agent_monitors.Timeout.{is_digit, number_of}

abbrev pub ten_to : ℕ → ℕ
ten_to zero = 1
ten_to (suc n) = 10 * ten_to n

number_of-start : (n : ℕ) (w : Text) → number_of n w ≡ n * ten_to (length w) + number_of 0 w
unfolding number_of
number_of-start n [] = omega arith
number_of-start n (c ∷ w) =
    omega (arith, number_of-start (n * 10 + (c - 48)) w, number_of-start (0 * 10 + (c - 48)) w)

mul_mono : (a b p : ℕ) → a ≤ b → a * p ≤ b * p
mul_mono a b p h = grind (arith, h)

one_le_ten : (n : ℕ) → 1 ≤ ten_to n
one_le_ten zero = omega arith
one_le_ten (suc n) = omega (arith, one_le_ten n)

pub ten_mono : (m n : ℕ) → m ≤ n → ten_to m ≤ ten_to n
ten_mono zero n h = one_le_ten n
ten_mono (suc m) zero h = omega arith
ten_mono (suc m) (suc n) h = omega (arith, ten_mono m n (omega arith))

pub number_of-bound : (w : Text) → all is_digit w ≡ true → number_of 0 w < ten_to (length w)
unfolding number_of
number_of-bound [] h = omega arith
number_of-bound (c ∷ w) h =
    let x : (c - 48) ≤ 9 = ground arith in
    omega (
      arith,
      number_of-start (0 * 10 + (c - 48)) w,
      number_of-bound w (ground arith),
      mul_mono (c - 48) 9 (ten_to (length w)) x,
    )

-- The first digit against the first digit of a bound of the same length.
pub number_of-compare :
    (c d : ℕ) (w ds : Text)
    → is_digit c ≡ true
    → is_digit d ≡ true
    → all is_digit w ≡ true
    → all is_digit ds ≡ true
    → length w ≡ length ds
    → leb (number_of 0 (c ∷ w)) (number_of 0 (d ∷ ds))
      ≡ (if ltb c d then true else (c == d) && leb (number_of 0 w) (number_of 0 ds))
unfolding number_of
number_of-compare c d w ds hc hd hw hds same =
    go (number_of-bound w hw)
      (subst (λ n. number_of 0 ds < ten_to n) (sym same) (number_of-bound ds hds))
      (number_of-start (0 * 10 + (c - 48)) w)
      (subst
        (λ n. number_of (0 * 10 + (d - 48)) ds ≡ (0 * 10 + (d - 48)) * ten_to n + number_of 0 ds)
        (sym same) (number_of-start (0 * 10 + (d - 48)) ds))
  where
    go :
        {p vw vd xw xd : ℕ}
        → vw < p
        → vd < p
        → xw ≡ (0 * 10 + (c - 48)) * p + vw
        → xd ≡ (0 * 10 + (d - 48)) * p + vd
        → leb xw xd ≡ (if ltb c d then true else (c == d) && leb vw vd)
    go {p} {vw} {vd} a b e f = elim (Bool-cases (ltb c d)) [
      | inl l ↦
          rw l (
            le→leb _ _
              (let step = mul_mono (suc (c - 48)) (d - 48) p (ground arith) in omega arith))
      | inr l ↦ elim (Bool-cases (c == d)) [
        | inl q ↦ let same : c ≡ d = (==_iff c d).0 q in rw (l, q, e, f, same) (ground arith)
        | inr q ↦
            rw (l, q) (let step = mul_mono (suc (d - 48)) (c - 48) p (ground arith) in ground arith)
      ]
    ]

above : (a b : ℕ) → b < a → leb a b ≡ false
above a b h = ground arith

-- A number with fewer digits than one that begins with a digit above 0 is below it.
pub number_of-shorter :
    (d : ℕ) (w ds : Text)
    → all is_digit w ≡ true
    → leb 49 d ≡ true
    → length w ≤ length ds
    → leb (number_of 0 w) (number_of 0 (d ∷ ds)) ≡ true
unfolding number_of
number_of-shorter d w ds hw hd h =
    let low = number_of-start (0 * 10 + (d - 48)) ds in
    let one = mul_mono 1 (0 * 10 + (d - 48)) (ten_to (length ds)) (ground arith) in
    le→leb _ _ (omega (arith, low, one, number_of-bound w hw, ten_mono (length w) (length ds) h))

-- A number that begins with a digit above 0 and has more digits than another is above it.
pub number_of-longer :
    (c d : ℕ) (w ds : Text)
    → all is_digit (d ∷ ds) ≡ true
    → leb 49 c ≡ true
    → length ds < length w
    → leb (number_of 0 (c ∷ w)) (number_of 0 (d ∷ ds)) ≡ false
unfolding number_of
number_of-longer c d w ds hd hc h =
    let low = number_of-start (0 * 10 + (c - 48)) w in
    let one = mul_mono 1 (0 * 10 + (c - 48)) (ten_to (length w)) (ground arith) in
    let bound = number_of-bound (d ∷ ds) hd in
    let grows = ten_mono (suc (length ds)) (length w) h in
    above _ _ (omega (arith, low, one, bound, grows))

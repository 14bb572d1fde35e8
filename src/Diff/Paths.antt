-- ===== src/Diff/Paths.antt =====
-- What the path of a rendered entry can hold.
use agent_monitors.Prelude.{
  ℕ, zero, suc, ◌+◌, ◌/◌, ◌%◌, ◌<◌, ◌≡◌, refl, ◌∙◌, inl, inr, Bool, true, false, ◌&&◌, not, [], ◌∷◌,
  ◌++◌, Text, all, arith, ltb, Bool-cases, In, in-All, decimal, decimal_upto,
}
use agent_monitors.Json.{unicode_escape, hex_digit}
use agent_monitors.Diff.{
  truncate_at_code_point, escape_units, escape_path_segment, is_control, escape_unit,
  is_path_syntax, field_path, index_path, keyed_element_path, identity_key_candidates,
}

all-append : (p : ℕ → Bool) (xs ys : Text) → all p (xs ++ ys) ≡ (all p xs && all p ys)
all-append p [] ys = refl
all-append p (x ∷ xs) ys = ground (arith, all-append p xs ys)

hex_shown : (n : ℕ) → n < 16 → is_control (hex_digit n) ≡ false
hex_shown n h = ground arith

control-lt : (c : ℕ) → is_control c ≡ true → c < 65536
control-lt c h = ground arith

escape_shown :
    (c : ℕ) → is_control c ≡ true → all (λ d. not (is_control d)) (unicode_escape c) ≡ true
escape_shown c h =
    let small = control-lt c h in
    rw
      (
        hex_shown (c / 4096) (omega arith),
        hex_shown (c / 256 % 16) (omega arith),
        hex_shown (c / 16 % 16) (omega arith),
        hex_shown (c % 16) (omega arith),
      )
      refl

syntax_shown : (c : ℕ) → is_path_syntax c ≡ true → is_control c ≡ false
syntax_shown c h = ground arith

unit_shown : (c : ℕ) → all (λ d. not (is_control d)) (escape_unit c) ≡ true
unit_shown c = elim (Bool-cases (is_path_syntax c)) [
  | inl e ↦ rw (e, syntax_shown c e) refl
  | inr e ↦ elim (Bool-cases (is_control c)) [
    | inl k ↦ rw (e, k) (escape_shown c k)
    | inr k ↦ rw (e, k) (rw k refl)
  ]
]

escaped_units : (s : Text) → all (λ c. not (is_control c)) (escape_units s) ≡ true
unfolding escape_units
escaped_units [] = refl
escaped_units (c ∷ cs) =
    all-append (λ d. not (is_control d)) (escape_unit c) (escape_units cs)
    ∙ rw (unit_shown c, escaped_units cs) refl

-- No code unit is a control character or a separator of lines.
abbrev pub IsShown : Text → Type 0
IsShown t = all (λ c. not (is_control c)) t ≡ true

escaped-IsShown : (value : Text) → IsShown (escape_path_segment value)
unfolding escape_path_segment
escaped-IsShown value =
    let t = truncate_at_code_point value 60 in
    elim (Bool-cases t.1) [
      | inl cut ↦ rw cut (
          all-append (λ d. not (is_control d)) (escape_units t.0) (8230 ∷ [])
          ∙ rw (escaped_units t.0) refl)
      | inr whole ↦ rw whole (escaped_units t.0)
    ]

-- The paths that the traversal builds, from the empty one at the root.
pub data IsPath : Text → Type 0 where
  root : IsPath []
  field_step : {base : Text} (name : Text) → IsPath base → IsPath (field_path base name)
  index_step : {base : Text} (index : ℕ) → IsPath base → IsPath (index_path base index)
  keyed_step :
      {base key : Text} (value : Text)
      → In key identity_key_candidates
      → IsPath base
      → IsPath (keyed_element_path base key value)

append-IsShown : (s t : Text) → IsShown s → IsShown t → IsShown (s ++ t)
append-IsShown s t hs ht = all-append (λ c. not (is_control c)) s t ∙ rw (hs, ht) refl

decimal_upto-IsShown : (fuel n : ℕ) → IsShown (decimal_upto fuel n)
unfolding decimal_upto
decimal_upto-IsShown zero n = refl
decimal_upto-IsShown (suc fuel) n = elim (Bool-cases (ltb n 10)) [
  | inl small ↦ rw small (ground arith)
  | inr large ↦ rw large (
      append-IsShown (decimal_upto fuel (n / 10)) ((48 + n % 10) ∷ [])
        (decimal_upto-IsShown fuel (n / 10)) (ground arith))
]

decimal-IsShown : (n : ℕ) → IsShown (decimal n)
unfolding decimal
decimal-IsShown n = decimal_upto-IsShown (suc n) n

candidate-IsShown : (key : Text) → In key identity_key_candidates → IsShown key
candidate-IsShown key i =
    in-All IsShown key identity_key_candidates
      (refl, (refl, (refl, (refl, (refl, (refl, (refl, (refl, tt)))))))) i

field-IsShown : (base name : Text) → IsShown base → IsShown (field_path base name)
unfolding field_path
field-IsShown [] name h = escaped-IsShown name
field-IsShown (c ∷ base) name h =
    append-IsShown (c ∷ base) (b'.' ∷ escape_path_segment name) h (escaped-IsShown name)

index-IsShown : (base : Text) (index : ℕ) → IsShown base → IsShown (index_path base index)
unfolding index_path
index-IsShown base index h =
    append-IsShown base (b'[' ∷ (decimal index ++ b']' ∷ [])) h
      (append-IsShown (decimal index) (b']' ∷ []) (decimal-IsShown index) refl)

keyed-IsShown :
    (base key value : Text)
    → IsShown base
    → IsShown key
    → IsShown (keyed_element_path base key value)
unfolding keyed_element_path
keyed-IsShown base key value h k =
    append-IsShown base (b'[' ∷ (key ++ (61 ∷ (escape_path_segment value ++ b']' ∷ [])))) h (
      append-IsShown key (61 ∷ (escape_path_segment value ++ b']' ∷ [])) k
        (append-IsShown (escape_path_segment value) (b']' ∷ []) (escaped-IsShown value) refl))

-- No code unit of a path that is built from the root by field names, indices and the values of
-- identity keys is a control character or a separator of lines, whatever the names and values are.
pub path_shown : {path : Text} → IsPath path → all (λ c. not (is_control c)) path ≡ true
path_shown root = refl
path_shown (field_step {base} name p) = field-IsShown base name (path_shown p)
path_shown (index_step {base} index p) = index-IsShown base index (path_shown p)
path_shown (keyed_step {base} {key} value i p) =
    keyed-IsShown base key value (path_shown p) (candidate-IsShown key i)

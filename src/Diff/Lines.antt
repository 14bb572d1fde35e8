-- ===== src/Diff/Lines.antt =====
-- The line diff is empty exactly for equal texts, and its chunks are bounded.
use agent_monitors.Prelude.{
  ℕ, ◌+◌, ◌≤◌, ◌≡◌, refl, sym, ap, ◌∙◌, ◌↔◌, inl, inr, true, false, Option, none, some, List, [],
  ◌∷◌, ◌++◌, append_assoc, Text, text_eq, text_eq_iff, option_text_eq, append-nil, length,
  length-append, arith, leb, Bool-cases, true-false, split_on, ◌==◌, ==_iff,
}
use agent_monitors.Event.{is_empty}
use agent_monitors.Render.{join_lines}
use agent_monitors.Diff.{pair_lines, chunks_of, diff_lines, build_text_diff}

-- Joining undoes splitting.
split-cons : (sep : ℕ) (part s : Text) → is_empty (split_on sep part s) ≡ false
unfolding split_on
split-cons sep part [] = refl
split-cons sep part (c ∷ cs) = ground (arith, split-cons sep (part ++ c ∷ []) cs)

join-cons :
    (x : Text) (xs : List Text)
    → is_empty xs ≡ false
    → join_lines (x ∷ xs) ≡ x ++ (10 ∷ join_lines xs)
unfolding join_lines
join-cons x [] h = ground arith
join-cons x (y ∷ ys) h = refl

join-split : (part s : Text) → join_lines (split_on 10 part s) ≡ part ++ s
unfolding split_on
join-split part [] = unfold join_lines in sym (append-nil part)
join-split part (c ∷ cs) = elim (Bool-cases (c == 10)) [
  | inl e ↦ rw e (
      join-cons part (split_on 10 [] cs) (split-cons 10 [] cs)
      ∙ rw (join-split [] cs, (==_iff c 10).0 e) refl)
  | inr e ↦ rw e (join-split (part ++ c ∷ []) cs ∙ append_assoc part (c ∷ []) cs)
]

-- Without chunks the lines are the same.
no_chunks :
    (line : ℕ) (before after : Option Text)
    → is_empty (chunks_of line before after) ≡ true
    → before ≡ after
unfolding option_text_eq
no_chunks line none none h = refl
no_chunks line none (some t) h = ground arith
no_chunks line (some s) none h = ground arith
no_chunks line (some s) (some t) h = elim (Bool-cases (text_eq s t)) [
  | inl e ↦ ap some ((text_eq_iff s t).0 e)
  | inr e ↦ absurd (true-false (sym (rw e at h)))
]

is_empty_eq : {A : Type 0} (xs : List A) → is_empty xs ≡ true → xs ≡ []
is_empty_eq [] h = refl
is_empty_eq (x ∷ xs) h = ground arith

append-empty : (xs ys : List Text) → is_empty xs ≡ false → (xs ++ ys) ≡ [] → ⊥
append-empty [] ys h e = ground arith
append-empty (x ∷ xs) ys h e = ground arith

-- The texts of a row of pairs are the same.
abbrev AreSame : List (Option Text × Option Text) → Type 0
AreSame [] = Unit {0}
AreSame (p ∷ ps) = (p.0 ≡ p.1) × AreSame ps

no_lines :
    (line count : ℕ) (ps : List (Option Text × Option Text))
    → diff_lines line count ps ≡ []
    → AreSame ps
unfolding diff_lines
no_lines line count [] h = tt
no_lines line count ((b, a) ∷ ps) h = elim (Bool-cases (is_empty (chunks_of line b a))) [
  | inl e ↦ (
    no_chunks line b a e,
    no_lines (line + 1) (count + length (chunks_of line b a)) ps (rw (e, diff_lines) at h),
  )
  | inr e ↦ elim (Bool-cases (leb 20 (count + length (chunks_of line b a)))) [
    | inl full ↦
        absurd
          (append-empty (chunks_of line b a) [] e (append-nil _ ∙ rw (e, full, diff_lines) at h))
    | inr more ↦ absurd (append-empty (chunks_of line b a) _ e (rw (e, more, diff_lines) at h))
  ]
]

same_lines : (xs ys : List Text) → AreSame (pair_lines xs ys) → xs ≡ ys
unfolding pair_lines
same_lines [] [] h = refl
same_lines [] (y ∷ ys) h = absurd (none_some h.0)
  where
    none_some : {t : Text} → none ≡ some t → ⊥
    none_some e = cc
same_lines (x ∷ xs) [] h = absurd (some_none h.0)
  where
    some_none : {t : Text} → some t ≡ none → ⊥
    some_none e = cc
same_lines (x ∷ xs) (y ∷ ys) h = cc (h.0, same_lines xs ys h.1)

-- A chunk begins with its sign.
abbrev HeadFull : List Text → Type 0
HeadFull [] = Unit {0}
HeadFull (x ∷ xs) = is_empty x ≡ false

HeadFull-append : (xs ys : List Text) → HeadFull xs → is_empty xs ≡ false → HeadFull (xs ++ ys)
HeadFull-append [] ys h e = ground arith
HeadFull-append (x ∷ xs) ys h e = h

HeadFull-chunks : (line : ℕ) (before after : Option Text) → HeadFull (chunks_of line before after)
unfolding option_text_eq
HeadFull-chunks line none none = tt
HeadFull-chunks line none (some t) = refl
HeadFull-chunks line (some s) none = refl
HeadFull-chunks line (some s) (some t) = elim (Bool-cases (text_eq s t)) [
  | inl e ↦ rw e tt
  | inr e ↦ rw e refl
]

HeadFull-diff :
    (line count : ℕ) (ps : List (Option Text × Option Text)) → HeadFull (diff_lines line count ps)
unfolding diff_lines
HeadFull-diff line count [] = tt
HeadFull-diff line count ((b, a) ∷ ps) = elim (Bool-cases (is_empty (chunks_of line b a))) [
  | inl e ↦ rw (e, diff_lines) (HeadFull-diff (line + 1) (count + length (chunks_of line b a)) ps)
  | inr e ↦ elim (Bool-cases (leb 20 (count + length (chunks_of line b a)))) [
    | inl full ↦ rw (e, full, diff_lines) (HeadFull-chunks line b a)
    | inr more ↦
        rw (e, more, diff_lines)
          (HeadFull-append (chunks_of line b a) _ (HeadFull-chunks line b a) e)
  ]
]

join-empty : (xs : List Text) → HeadFull xs → join_lines xs ≡ [] → xs ≡ []
unfolding join_lines
join-empty [] h e = refl
join-empty ([] ∷ xs) h e = ground arith
join-empty ((c ∷ x) ∷ []) h e = ground arith
join-empty ((c ∷ x) ∷ y ∷ ys) h e = ground arith

-- The line diff of two texts is empty exactly if the texts are equal.
pub text_diff_empty :
    (previous current : Text) → (build_text_diff previous current ≡ []) ↔ (previous ≡ current)
unfolding build_text_diff
text_diff_empty previous current = (
  λ h. elim (Bool-cases (text_eq previous current)) [
    | inl e ↦ (text_eq_iff previous current).0 e
    | inr e ↦
        let pairs = pair_lines (split_on 10 [] previous) (split_on 10 [] current) in
        let joined : join_lines (diff_lines 1 0 pairs) ≡ [] = rw e at h in
        let none_left = join-empty (diff_lines 1 0 pairs) (HeadFull-diff 1 0 pairs) joined in
        let lines =
          same_lines (split_on 10 [] previous) (split_on 10 [] current)
            (no_lines 1 0 pairs none_left) in
        sym (join-split [] previous) ∙ ap join_lines lines ∙ join-split [] current
  ],
  λ e. rw ((text_eq_iff previous current).1 e) refl,
)

length-chunks : (line : ℕ) (before after : Option Text) → length (chunks_of line before after) ≤ 2
length-chunks line none none = ground arith
length-chunks line none (some t) = ground arith
length-chunks line (some s) none = ground arith
length-chunks line (some s) (some t) = ground arith

-- The loop stops at twenty chunks, or one more when a line has two.
pub length-diff_lines :
    (line count : ℕ) (ps : List (Option Text × Option Text))
    → count ≤ 19
    → count + length (diff_lines line count ps) ≤ 21
unfolding diff_lines
length-diff_lines line count [] h = omega arith
length-diff_lines line count ((b, a) ∷ ps) h = ground (
  arith,
  length-chunks line b a,
  length-append (chunks_of line b a)
      (diff_lines (line + 1) (count + length (chunks_of line b a)) ps),
  length-diff_lines (line + 1) (count + length (chunks_of line b a)) ps,
)

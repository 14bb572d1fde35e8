-- ===== src/Prelude/Distinct.antt =====
-- Lists without two elements of one key, where a Boolean test says which elements share a key.
use mathlib.Core.Path.{◌≡◌, refl}
use mathlib.Core.Logic.{◌⊎◌, inl, inr}
use mathlib.Core.Bool.{Bool, false}
use mathlib.Core.List.{List, [], ◌∷◌, ◌++◌, map}
use agent_monitors.Prelude.Tests.{Bool-cases}
use agent_monitors.Prelude.Lists.{keep, All, In}

pub All-keep {κ} :
    {A : Type 0} (P : A → Type κ) (p : A → Bool) (xs : List A) → All P xs → All P (keep p xs)
All-keep P p [] h = tt
All-keep P p (x ∷ xs) h = elim (Bool-cases (p x)) [
  | inl e ↦ rw e (h.0, All-keep P p xs h.1)
  | inr e ↦ rw e (All-keep P p xs h.1)
]

pub All-mono {κ μ} :
    {A : Type 0} (P : A → Type κ) (Q : A → Type μ)
    → ((a : A) → P a → Q a)
    → (xs : List A) → All P xs
    → All Q xs
All-mono P Q f [] h = tt
All-mono P Q f (x ∷ xs) h = (f x h.0, All-mono P Q f xs h.1)

pub All-snoc {κ} :
    {A : Type 0} (P : A → Type κ) (xs : List A) (a : A) → All P xs → P a → All P (xs ++ a ∷ [])
All-snoc P [] a h p = (p, tt)
All-snoc P (x ∷ xs) a h p = (h.0, All-snoc P xs a h.1 p)

pub In-snoc : {A : Type 0} (x : A) (xs : List A) (a : A) → In x (xs ++ a ∷ []) → In x xs ⊎ (x ≡ a)
In-snoc x [] a (inl e) = inr e
In-snoc x [] a (inr h) = elim h [ ]
In-snoc x (y ∷ ys) a (inl e) = inl (inl e)
In-snoc x (y ∷ ys) a (inr h) = elim (In-snoc x ys a h) [ inl i ↦ inl (inr i) | inr e ↦ inr e ]

pub In-snoc_left : {A : Type 0} (x : A) (xs : List A) (a : A) → In x xs → In x (xs ++ a ∷ [])
In-snoc_left x [] a h = elim h [ ]
In-snoc_left x (y ∷ ys) a (inl e) = inl e
In-snoc_left x (y ∷ ys) a (inr h) = inr (In-snoc_left x ys a h)

pub In-snoc_last : {A : Type 0} (xs : List A) (a : A) → In a (xs ++ a ∷ [])
In-snoc_last [] a = inl refl
In-snoc_last (y ∷ ys) a = inr (In-snoc_last ys a)

module _ {A : Type 0} (same : A → A → Bool) where
  abbrev pub IsFresh : A → List A → Type 0
  IsFresh a xs = All (λ b. same b a ≡ false) xs

  abbrev pub AreDistinct : List A → Type 0
  AreDistinct [] = Unit {0}
  AreDistinct (x ∷ xs) = All (λ b. same x b ≡ false) xs × AreDistinct xs

  pub keep-AreDistinct : (p : A → Bool) (xs : List A) → AreDistinct xs → AreDistinct (keep p xs)
  keep-AreDistinct p [] d = tt
  keep-AreDistinct p (x ∷ xs) d = elim (Bool-cases (p x)) [
    | inl e ↦ rw e (All-keep (λ b. same x b ≡ false) p xs d.0, keep-AreDistinct p xs d.1)
    | inr e ↦ rw e (keep-AreDistinct p xs d.1)
  ]

  pub snoc-AreDistinct :
      (xs : List A) (a : A) → AreDistinct xs → IsFresh a xs → AreDistinct (xs ++ a ∷ [])
  snoc-AreDistinct [] a d f = (tt, tt)
  snoc-AreDistinct (x ∷ xs) a d f =
      (All-snoc (λ b. same x b ≡ false) xs a d.0 f.0, snoc-AreDistinct xs a d.1 f.1)

  -- A map that keeps the keys.
  module _ (f : A → A) (keys : (a b : A) → same (f a) (f b) ≡ same a b) where
    map-fresh :
        (x : A) (xs : List A)
        → All (λ b. same x b ≡ false) xs
        → All (λ b. same (f x) b ≡ false) (map f xs)
    map-fresh x [] h = tt
    map-fresh x (y ∷ ys) h = (rw (keys x y) h.0, map-fresh x ys h.1)

    pub map-AreDistinct : (xs : List A) → AreDistinct xs → AreDistinct (map f xs)
    map-AreDistinct [] d = tt
    map-AreDistinct (x ∷ xs) d = (map-fresh x xs d.0, map-AreDistinct xs d.1)

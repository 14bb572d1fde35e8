-- ===== src/Outbox/Capacity.antt =====
-- The bounds of the outbox, for every route.
use agent_monitors.Prelude.{
  ℕ, ◌+◌, ◌≤◌, ◌≡◌, refl, sym, ap, ◌∙◌, inl, inr, Bool, true, false, not, Option, none, some, List,
  [], ◌∷◌, ◌++◌, ◌⊎◌, suc, append-nil, Text, text_eq_iff, option_text_eq, length, length-append,
  any, arith, Bool-cases, true-false, if◌then◌else◌,
}
use agent_monitors.Outbox.{
  RetryInput, MaterializationRetry, Enqueued, ok, err, EnqueueError, no_capacity, Addition,
  is_route, add_item, add_items, total_bytes, on_route, fits, max_records, max_bytes, prepare_all,
  enqueue_materialization_retries, prepare_with,
}

-- The bounds of one route.
unfoldable pub IsWithin : List MaterializationRetry → Text → Option Text → Type 0
IsWithin rows m w =
    (length (on_route m w rows) ≤ max_records) × (total_bytes (on_route m w rows) ≤ max_bytes)

on_route-append :
    (m : Text) (w : Option Text) (xs ys : List MaterializationRetry)
    → on_route m w (xs ++ ys) ≡ on_route m w xs ++ on_route m w ys
on_route-append m w [] ys = refl
on_route-append m w (x ∷ xs) ys = ground (arith, on_route-append m w xs ys)

total-append :
    (xs ys : List MaterializationRetry) → total_bytes (xs ++ ys) ≡ total_bytes xs + total_bytes ys
total-append [] ys = omega arith
total-append (x ∷ xs) ys = omega (arith, total-append xs ys)

option_text_iff : (a b : Option Text) → option_text_eq a b ≡ true → a ≡ b
unfolding option_text_eq
option_text_iff none none h = refl
option_text_iff none (some t) h = ground arith
option_text_iff (some s) none h = ground arith
option_text_iff (some s) (some t) h = ap some ((text_eq_iff s t).0 h)

-- The count and the bytes that the entries of a route add.
abbrev added_count : Text → Option Text → List Addition → ℕ
added_count m w [] = 0
added_count m w (a ∷ more) =
    if is_route m w a.monitor_id a.workspace_path then a.count else added_count m w more

abbrev added_bytes : Text → Option Text → List Addition → ℕ
added_bytes m w [] = 0
added_bytes m w (a ∷ more) =
    if is_route m w a.monitor_id a.workspace_path then a.bytes else added_bytes m w more

route_same : (m k : Text) (w v : Option Text) → is_route m w k v ≡ true → (k ≡ m) × (v ≡ w)
route_same m k w v h = ((text_eq_iff k m).0 (ground arith), option_text_iff v w (ground arith))

route_refl : (m : Text) (w : Option Text) → is_route m w m w ≡ true
unfolding option_text_eq
route_refl m none = ground (arith, text_eq_iff m m)
route_refl m (some t) = ground (arith, text_eq_iff m m, text_eq_iff t t)

route_as :
    (m k l : Text) (w v u : Option Text)
    → is_route k v l u ≡ true
    → is_route m w l u ≡ is_route m w k v
route_as m k l w v u h =
    let same = route_same k l v u h in
    ap (λ z. is_route m w z u) same.0 ∙ ap (λ z. is_route m w k z) same.1

-- Two routes that an entry is not both of.
route_other :
    (m k l : Text) (w v u : Option Text)
    → is_route k v l u ≡ false
    → is_route m w l u ≡ true
    → is_route m w k v ≡ false
route_other m k l w v u h e = elim (Bool-cases (is_route m w k v)) [
  | inr n ↦ n
  | inl y ↦
      let one = route_same m l w u e in
      let two = route_same m k w v y in
      let hit : is_route k v l u ≡ true =
        ap (λ z. is_route k v z u) (one.0 ∙ sym two.0)
        ∙ ap (λ z. is_route k v k z) (one.1 ∙ sym two.1)
        ∙ route_refl k v in
      absurd (true-false (sym hit ∙ h))
]

abbrev when : Bool → ℕ → ℕ
when b n = if b then n else 0

add_item-sums :
    (m : Text) (w : Option Text) (k : Text) (v : Option Text) (b : ℕ) (acc : List Addition)
    → (added_count m w (add_item k v b acc) ≡ when (is_route m w k v) 1 + added_count m w acc)
      × (added_bytes m w (add_item k v b acc) ≡ when (is_route m w k v) b + added_bytes m w acc)
unfolding add_item
add_item-sums m w k v b [] = ground arith
add_item-sums m w k v b (a ∷ more) =
    elim (Bool-cases (is_route k v a.monitor_id a.workspace_path)) [
      | inl e ↦
          let q = route_as m k a.monitor_id w v a.workspace_path e in
          elim (Bool-cases (is_route m w k v)) [
            | inl y ↦ rw (e, y, q ∙ y) (omega arith, omega arith)
            | inr n ↦ rw (e, n, q ∙ n) (omega arith, omega arith)
          ]
      | inr e ↦
          let ih = add_item-sums m w k v b more in
          elim (Bool-cases (is_route m w a.monitor_id a.workspace_path)) [
            | inl y ↦
                let n = route_other m k a.monitor_id w v a.workspace_path e y in
                rw (e, y, n) (omega arith, omega arith)
            | inr n ↦ rw (e, n) ih
          ]
    ]

add_items-sums :
    (m : Text) (w : Option Text) (rs : List MaterializationRetry) (acc : List Addition)
    → (added_count m w (add_items acc rs) ≡ added_count m w acc + length (on_route m w rs))
      × (added_bytes m w (add_items acc rs) ≡ added_bytes m w acc + total_bytes (on_route m w rs))
unfolding add_items
add_items-sums m w [] acc = (omega arith, omega arith)
add_items-sums m w (r ∷ rs) acc =
    let next = add_item r.monitor_id r.workspace_path r.envelope_bytes acc in
    let ih = add_items-sums m w rs next in
    let step = add_item-sums m w r.monitor_id r.workspace_path r.envelope_bytes acc in
    elim (Bool-cases (is_route m w r.monitor_id r.workspace_path)) [
      | inl y ↦
          let s : (added_count m w next ≡ 1 + added_count m w acc)
              × (added_bytes m w next ≡ r.envelope_bytes + added_bytes m w acc) =
            rw y at step in
          rw y (omega (arith, ih.0, s.0), omega (arith, ih.1, s.1))
      | inr n ↦
          let s : (added_count m w next ≡ 0 + added_count m w acc)
              × (added_bytes m w next ≡ 0 + added_bytes m w acc) =
            rw n at step in
          rw n (omega (arith, ih.0, s.0), omega (arith, ih.1, s.1))
    ]

-- If every entry fits, what a route adds fits; a route without an entry adds nothing.
fits_route :
    (rows : List MaterializationRetry) (m : Text) (w : Option Text) (adds : List Addition)
    → any (λ a. not (fits rows a)) adds ≡ false
    → IsWithin rows m w
    → (length (on_route m w rows) + added_count m w adds ≤ max_records)
      × (total_bytes (on_route m w rows) + added_bytes m w adds ≤ max_bytes)
unfolding IsWithin
fits_route rows m w [] h k = (omega (arith, k.0), omega (arith, k.1))
fits_route rows m w (a ∷ more) h k =
    elim (Bool-cases (is_route m w a.monitor_id a.workspace_path)) [
      | inl y ↦
          let same = route_same m a.monitor_id w a.workspace_path y in
          let fit : fits rows a ≡ true = ground arith in
          let at : fits rows
                record { monitor_id = m; workspace_path = w; count = a.count; bytes = a.bytes }
              ≡ true =
            ap
              (λ z.
                fits rows
                  record { monitor_id = z; workspace_path = w; count = a.count; bytes = a.bytes })
              (sym same.0)
            ∙ ap
                (λ z. fits rows record {
                  monitor_id = a.monitor_id;
                  workspace_path = z;
                  count = a.count;
                  bytes = a.bytes;
                })
                (sym same.1)
            ∙ fit in
          rw y (ground arith, ground arith)
      | inr n ↦ rw n (fits_route rows m w more (ground arith) k)
    ]

enqueued_ok :
    {A : Type 0} (b : Bool) (x y : A)
    → (if b then err no_capacity else ok x) ≡ ok y
    → (b ≡ false) × (x ≡ y)
enqueued_ok true x y h = ground arith
enqueued_ok false x y h = (refl, (cc))

IsWithin-append :
    (rows news : List MaterializationRetry) (m : Text) (w : Option Text)
    → any (λ a. not (fits rows a)) (add_items [] news) ≡ false
    → IsWithin rows m w
    → IsWithin (rows ++ news) m w
unfolding IsWithin
IsWithin-append rows news m w h k =
    let f = fits_route rows m w (add_items [] news) h k in
    let s = add_items-sums m w news [] in
    rw (on_route-append m w rows news) (
      omega (arith, f.0, s.0, length-append (on_route m w rows) (on_route m w news)),
      omega (arith, f.1, s.1, total-append (on_route m w rows) (on_route m w news)),
    )

Enqueued-cases :
    {A : Type 0} (o : Enqueued A) → ((a : A) × (o ≡ ok a)) ⊎ ((e : EnqueueError) × (o ≡ err e))
Enqueued-cases (ok a) = inl (a, refl)
Enqueued-cases (err e) = inr (e, refl)

err-ok : {A : Type 0} {e : EnqueueError} {a : A} → err e ≡ ok a → ⊥
err-ok h = cc

ok_same : {A : Type 0} {a b : A} → ok a ≡ ok b → a ≡ b
ok_same h = cc

module _ (byte_length : Text → ℕ) where
  length-prepare_all :
      (now : ℕ) (inputs : List RetryInput) (news : List MaterializationRetry)
      → prepare_all byte_length now inputs ≡ ok news
      → length news ≡ length inputs
  unfolding prepare_all
  length-prepare_all now [] news h = let same : [] ≡ news = ok_same h in rw (← same) refl
  length-prepare_all now (i ∷ inputs) news h =
      elim (Enqueued-cases (prepare_with byte_length now i i.envelope)) [
        | inr (e, q) ↦ absurd (err-ok (rw (q, prepare_all) at h))
        | inl (r, q) ↦ elim (Enqueued-cases (prepare_all byte_length now inputs)) [
          | inr (e, n) ↦ absurd (err-ok (rw (q, n, prepare_all) at h))
          | inl (rs, n) ↦
              let same : r ∷ rs ≡ news = ok_same (rw (q, n, prepare_all) at h) in
              rw (← same) (ap suc (length-prepare_all now inputs rs n))
        ]
      ]

  -- An enqueue that succeeds adds one record for each input, behind those that were there, and if
  -- every route was within the bounds on records and on bytes before it, every route is after it.
  pub enqueue_bounded :
      (now : ℕ) (inputs : List RetryInput) (rows : List MaterializationRetry)
      {r : List MaterializationRetry × List MaterializationRetry}
      → enqueue_materialization_retries byte_length now inputs rows ≡ ok r
      → ((m : Text) (w : Option Text) → IsWithin rows m w)
      → (r.1 ≡ rows ++ r.0)
        × (length r.0 ≡ length inputs)
        × ((m : Text) (w : Option Text) → IsWithin r.1 m w)
  unfolding enqueue_materialization_retries
  enqueue_bounded now [] rows {r} h k =
      let same = ok_same h in rw (← same) (sym (append-nil rows), refl, k)
  enqueue_bounded now (i ∷ inputs) rows {r} h k =
      elim (Enqueued-cases (prepare_all byte_length now (i ∷ inputs))) [
        | inr (e, q) ↦ absurd (err-ok (rw q at h))
        | inl (news, q) ↦
            let done =
              enqueued_ok (any (λ a. not (fits rows a)) (add_items [] news)) (news, rows ++ news) r
                (rw q at h) in
            rw (← done.1) (
              refl,
              length-prepare_all now (i ∷ inputs) news q,
              λ m w. IsWithin-append rows news m w done.0 (k m w),
            )
      ]

-- ===== src/Inbox/Moves.antt =====
-- What one write of the inbox does to the rows: the counts, the stamps and the other items.
use agent_monitors.Prelude.{
  ℕ, ◌+◌, ◌≡◌, refl, sym, ap, ◌∙◌, subst, inl, inr, Bool, true, false, ◌&&◌, Option, none, some,
  List, [], ◌∷◌, Text, text_eq, text_eq_iff, arith, All, Bool-cases, is_some, is_none,
}
use agent_monitors.Inbox.{
  queued, acked, in_progress, completed, failed, archived, InboxItemState, InboxItem, Inbox,
  InboxError, ok, err, get_by_id, set_where, then_set, check_transition, require_transition,
  is_allowed,
}

-- How many moves lead to a state.
abbrev pub moves_to : InboxItemState → ℕ
moves_to queued = 0
moves_to acked = 1
moves_to in_progress = 2
moves_to completed = 3
moves_to failed = 3
moves_to archived = 4

-- Every row is one insert and the moves to its state.
abbrev pub total_moves : List InboxItem → ℕ
total_moves [] = 0
total_moves (r ∷ rs) = 1 + moves_to r.state + total_moves rs

-- The stamps that a state allows: (`ackedAt`, `completedAt`).
abbrev pub stamped : InboxItemState → Option ℕ → Option ℕ → Bool
stamped queued a c = is_none a && is_none c
stamped completed a c = is_some a && is_some c
stamped archived a c = is_some a
stamped _ a c = is_some a && is_none c

abbrev pub IsStamped : InboxItem → Type 0
IsStamped r = stamped r.state r.acked_at r.completed_at ≡ true

abbrev pub Fresh : Text → List InboxItem → Type 0
Fresh id rs = All (λ r. text_eq r.id id ≡ false) rs

abbrev pub HasUniqueIds : List InboxItem → Type 0
HasUniqueIds [] = Unit
HasUniqueIds (r ∷ rs) = Fresh r.id rs × HasUniqueIds rs

-- The primary key, the stamps of every item, and the number of callbacks: one for every insert
-- and every move.
pub record WellFormed (i : Inbox) : Type 0 where
  pub unique : HasUniqueIds i.rows
  pub stamps : All IsStamped i.rows
  pub counted : i.mutations ≡ total_moves i.rows

module _ (id : Text) (set : InboxItem → InboxItem)
    (same_id : (r : InboxItem) → (set r).id ≡ r.id) where
  set_where-unmatched : (rs : List InboxItem) → Fresh id rs → set_where id set rs ≡ rs
  set_where-unmatched [] h = refl
  set_where-unmatched (r ∷ rs) h = ground (arith, set_where-unmatched rs h.1)

  set_where-Fresh : (k : Text) (rs : List InboxItem) → Fresh k rs → Fresh k (set_where id set rs)
  set_where-Fresh k [] h = tt
  set_where-Fresh k (r ∷ rs) h = elim (Bool-cases (text_eq r.id id)) [
    | inl e ↦ rw (e, same_id) (h.0, set_where-Fresh k rs h.1)
    | inr e ↦ rw e (h.0, set_where-Fresh k rs h.1)
  ]

  set_where_unique : (rs : List InboxItem) → HasUniqueIds rs → HasUniqueIds (set_where id set rs)
  set_where_unique [] h = tt
  set_where_unique (r ∷ rs) h = elim (Bool-cases (text_eq r.id id)) [
    | inl e ↦ rw (e, same_id) (set_where-Fresh r.id rs h.0, set_where_unique rs h.1)
    | inr e ↦ rw e (set_where-Fresh r.id rs h.0, set_where_unique rs h.1)
  ]

  -- Another item is what it was.
  pub get-set_other :
      (other : Text) (rs : List InboxItem)
      → text_eq id other ≡ false
      → get_by_id other (set_where id set rs) ≡ get_by_id other rs
  unfolding get_by_id
  get-set_other other [] h = refl
  get-set_other other (r ∷ rs) h = ground (
    arith,
    get-set_other other rs h,
    text_eq_iff r.id id,
    text_eq_iff r.id other,
    text_eq_iff id other,
    same_id r,
  )

  module _ (item : InboxItem) where
    get-set :
        (rs : List InboxItem)
        → get_by_id id rs ≡ some item
        → get_by_id id (set_where id set rs) ≡ some (set item)
    unfolding get_by_id
    get-set (r ∷ rs) h = ground (arith, get-set rs, same_id r)
    get-set [] h = ground arith

    total-set :
        (rs : List InboxItem)
        → HasUniqueIds rs
        → get_by_id id rs ≡ some item
        → moves_to (set item).state ≡ 1 + moves_to item.state
        → total_moves (set_where id set rs) ≡ 1 + total_moves rs
    unfolding get_by_id
    total-set [] u h m = ground arith
    total-set (r ∷ rs) u h m = elim (Bool-cases (text_eq r.id id)) [
      | inl e ↦
          let same : r ≡ item = ground arith in
          let fresh : Fresh id rs = subst (λ k. Fresh k rs) ((text_eq_iff r.id id).0 e) u.0 in
          rw (e, set_where-unmatched rs fresh) (ground (arith, same))
      | inr e ↦ rw e (ground (arith, total-set rs u.1 (rw e at h) m))
    ]

    stamps-set :
        (rs : List InboxItem)
        → HasUniqueIds rs
        → get_by_id id rs ≡ some item
        → (IsStamped item → IsStamped (set item))
        → All IsStamped rs
        → All IsStamped (set_where id set rs)
    unfolding get_by_id
    stamps-set [] u h m s = tt
    stamps-set (r ∷ rs) u h m s = elim (Bool-cases (text_eq r.id id)) [
      | inl e ↦
          let same : r ≡ item = ground arith in
          let fresh : Fresh id rs = subst (λ k. Fresh k rs) ((text_eq_iff r.id id).0 e) u.0 in
          rw (e, set_where-unmatched rs fresh, same) (m (subst IsStamped same s.0), s.1)
      | inr e ↦ rw e (s.0, stamps-set rs u.1 (rw e at h) m s.1)
    ]

    pub found-id : (rs : List InboxItem) → get_by_id id rs ≡ some item → item.id ≡ id
    unfolding get_by_id
    found-id [] h = ground arith
    found-id (r ∷ rs) h = ground (arith, found-id rs, text_eq_iff r.id id)

-- A move goes one step on.
allowed-moves : (s t : InboxItemState) → is_allowed s t ≡ true → moves_to t ≡ 1 + moves_to s
allowed-moves s t h = grind arith

-- What each of the five writes is: it keeps the id and the creation, sets the target state, and
-- leaves the stamps as that state allows.
pub record Writes (target : InboxItemState) (set : InboxItem → InboxItem → InboxItem) : Type 0 where
  pub same_id : (item r : InboxItem) → (set item r).id ≡ r.id
  pub to_target : (item r : InboxItem) → (set item r).state ≡ target
  pub keeps_stamps :
      (item : InboxItem)
      → is_allowed item.state target ≡ true
      → IsStamped item
      → IsStamped (set item item)

-- The item with the id has moved along `VALID_TRANSITIONS` to the target, every other item is as
-- it was, and the callback has run once.
pub record Moved (id : Text) (target : InboxItemState) (i j : Inbox) : Type 0 where
  pub before : InboxItem
  pub after : InboxItem
  pub found_before : get_by_id id i.rows ≡ some before
  pub found_after : get_by_id id j.rows ≡ some after
  pub in_target : after.state ≡ target
  pub allowed : is_allowed before.state target ≡ true
  pub others :
      (other : Text) → text_eq id other ≡ false → get_by_id other j.rows ≡ get_by_id other i.rows
  pub notified : j.mutations ≡ 1 + i.mutations

pub ok_injective : (i j : Inbox) → ok i ≡ ok j → i ≡ j
ok_injective i j h = ground arith

pub err_ok : (e : InboxError) (j : Inbox) → err e ≡ ok j → ⊥
err_ok e j h = ground arith

module _ (id : Text) (target : InboxItemState) (set : InboxItem → InboxItem → InboxItem)
    (w : Writes target set) where
  check_ok :
      (o : Option InboxItem) (i j : Inbox)
      → then_set id set i (check_transition id target o) ≡ ok j
      → (item : InboxItem) × (o ≡ some item)
        × (is_allowed item.state target ≡ true)
        × (j ≡ record { rows = set_where id (set item) i.rows; mutations = i.mutations + 1 })
  check_ok none i j h = ground arith
  check_ok (some item) i j h = elim (Bool-cases (is_allowed item.state target)) [
    | inl e ↦ (item, refl, e, sym (ok_injective _ j (rw e at h)))
    | inr e ↦ absurd (err_ok _ j (rw e at h))
  ]

  moved_ok :
      (i j : Inbox)
      → then_set id set i (require_transition id target i) ≡ ok j
      → (item : InboxItem) × (get_by_id id i.rows ≡ some item)
        × (is_allowed item.state target ≡ true)
        × (j ≡ record { rows = set_where id (set item) i.rows; mutations = i.mutations + 1 })
  unfolding require_transition
  moved_ok i j h = check_ok (get_by_id id i.rows) i j h

  pub move-Moved :
      (i j : Inbox)
      → then_set id set i (require_transition id target i) ≡ ok j
      → Moved id target i j
  move-Moved i j h =
      let (item, found, allowed, same) = moved_ok i j h in
      rw same record {
        before = item;
        after = set item item;
        found_before = found;
        found_after = get-set id (set item) (w.same_id item) item i.rows found;
        in_target = w.to_target item item;
        allowed = allowed;
        others = λ other e. get-set_other id (set item) (w.same_id item) other i.rows e;
        notified = omega arith;
      }

  pub move-WellFormed :
      (i j : Inbox)
      → then_set id set i (require_transition id target i) ≡ ok j
      → WellFormed i
      → WellFormed j
  move-WellFormed i j h f =
      let (item, found, allowed, same) = moved_ok i j h in
      let step = allowed-moves item.state target allowed in
      rw same record {
        unique = set_where_unique id (set item) (w.same_id item) i.rows f.unique;
        stamps =
            stamps-set id (set item) (w.same_id item) item i.rows f.unique found
              (w.keeps_stamps item allowed) f.stamps;
        counted =
            let total =
              total-set id (set item) (w.same_id item) item i.rows f.unique found
                (ap moves_to (w.to_target item item) ∙ step) in
            omega (arith, total, f.counted);
      }

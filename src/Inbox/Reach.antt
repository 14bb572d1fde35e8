-- ===== src/Inbox/Reach.antt =====
-- The operations of the inbox as steps, and what holds of every inbox that they reach.
use agent_monitors.Prelude.{
  ℕ, ◌+◌, ◌≡◌, refl, sym, false, Option, none, some, List, [], ◌∷◌, ◌++◌, Text, text_eq,
  text_eq_iff, arith, All, Option-cases, inl, inr,
}
use agent_monitors.Inbox.{
  acked, in_progress, completed, failed, archived, InboxItemState, InboxItem, EnqueuePayload, Inbox,
  ok, get_by_id, enqueue, created, ack, start, complete, fail, archive, set_acked, set_started,
  set_completed, set_failed, set_archived,
}
use agent_monitors.Inbox.Moves.{
  moves_to, total_moves, IsStamped, Fresh, HasUniqueIds, WellFormed, Writes, Moved, move-Moved,
  move-WellFormed, ok_injective, err_ok,
}

-- One call that moves an item.
pub data Advance : Text → InboxItemState → Inbox → Inbox → Type 0 where
  by_ack : {id : Text} {i j : Inbox} → (now : ℕ) → ack now id i ≡ ok j → Advance id acked i j
  by_start :
      {id : Text} {i j : Inbox} → (now : ℕ) → start now id i ≡ ok j → Advance id in_progress i j
  by_complete :
      {id : Text} {i j : Inbox} → (now : ℕ) → complete now id i ≡ ok j → Advance id completed i j
  by_fail :
      {id : Text} {i j : Inbox}
      → (now : ℕ) (error : Option Text) → fail now id error i ≡ ok j
      → Advance id failed i j
  by_archive :
      {id : Text} {i j : Inbox} → (now : ℕ) → archive now id i ≡ ok j → Advance id archived i j

-- The inboxes that the calls reach from an empty database.
pub data Reachable : Inbox → Type 0 where
  at_start : Reachable record { rows = []; mutations = 0 }
  enqueued :
      {i j : Inbox}
      → (now : ℕ) (id : Text) (payload : EnqueuePayload) → enqueue now id payload i ≡ ok j
      → Reachable i
      → Reachable j
  advanced :
      {i j : Inbox} {id : Text} {target : InboxItemState}
      → Advance id target i j
      → Reachable i
      → Reachable j

acked-Writes : (now : ℕ) → Writes acked (set_acked now)
acked-Writes now = record {
  same_id = λ item r. refl;
  to_target = λ item r. refl;
  keeps_stamps = λ item a h. grind (arith, a, h);
}

started-Writes : (now : ℕ) → Writes in_progress (set_started now)
started-Writes now = record {
  same_id = λ item r. refl;
  to_target = λ item r. refl;
  keeps_stamps = λ item a h. grind (arith, a, h);
}

completed-Writes : (now : ℕ) → Writes completed (set_completed now)
completed-Writes now = record {
  same_id = λ item r. refl;
  to_target = λ item r. refl;
  keeps_stamps = λ item a h. grind (arith, a, h);
}

archived-Writes : (now : ℕ) → Writes archived (set_archived now)
archived-Writes now = record {
  same_id = λ item r. refl;
  to_target = λ item r. refl;
  keeps_stamps = λ item a h. grind (arith, a, h);
}

failed-Writes : (now : ℕ) (error : Option Text) → Writes failed (set_failed now error)
failed-Writes now none = record {
  same_id = λ item r. refl;
  to_target = λ item r. refl;
  keeps_stamps = λ item a h. grind (arith, a, h);
}
failed-Writes now (some []) = record {
  same_id = λ item r. refl;
  to_target = λ item r. refl;
  keeps_stamps = λ item a h. grind (arith, a, h);
}
failed-Writes now (some (c ∷ error)) = record {
  same_id = λ item r. refl;
  to_target = λ item r. refl;
  keeps_stamps = λ item a h. grind (arith, a, h);
}

-- A call that succeeds moves the item with its id along `VALID_TRANSITIONS` to its own state,
-- leaves every other item as it was, and runs the callback once.
pub Advance-Moved :
    (id : Text) (target : InboxItemState) (i j : Inbox)
    → Advance id target i j
    → Moved id target i j
unfolding ack start complete fail archive
Advance-Moved id _ i j (by_ack now h) = move-Moved id acked (set_acked now) (acked-Writes now) i j h
Advance-Moved id _ i j (by_start now h) =
    move-Moved id in_progress (set_started now) (started-Writes now) i j h
Advance-Moved id _ i j (by_complete now h) =
    move-Moved id completed (set_completed now) (completed-Writes now) i j h
Advance-Moved id _ i j (by_fail now error h) =
    move-Moved id failed (set_failed now error) (failed-Writes now error) i j h
Advance-Moved id _ i j (by_archive now h) =
    move-Moved id archived (set_archived now) (archived-Writes now) i j h

Advance-WellFormed :
    (id : Text) (target : InboxItemState) (i j : Inbox)
    → Advance id target i j
    → WellFormed i
    → WellFormed j
unfolding ack start complete fail archive
Advance-WellFormed id _ i j (by_ack now h) =
    move-WellFormed id acked (set_acked now) (acked-Writes now) i j h
Advance-WellFormed id _ i j (by_start now h) =
    move-WellFormed id in_progress (set_started now) (started-Writes now) i j h
Advance-WellFormed id _ i j (by_complete now h) =
    move-WellFormed id completed (set_completed now) (completed-Writes now) i j h
Advance-WellFormed id _ i j (by_fail now error h) =
    move-WellFormed id failed (set_failed now error) (failed-Writes now error) i j h
Advance-WellFormed id _ i j (by_archive now h) =
    move-WellFormed id archived (set_archived now) (archived-Writes now) i j h

Fresh-of_none : (id : Text) (rs : List InboxItem) → get_by_id id rs ≡ none → Fresh id rs
unfolding get_by_id
Fresh-of_none id [] h = tt
Fresh-of_none id (r ∷ rs) h = ground (arith, Fresh-of_none id rs)

Fresh-append :
    (k : Text) (rs : List InboxItem) (r : InboxItem)
    → Fresh k rs
    → text_eq r.id k ≡ false
    → Fresh k (rs ++ r ∷ [])
Fresh-append k [] r h n = (n, tt)
Fresh-append k (s ∷ rs) r h n = (h.0, Fresh-append k rs r h.1 n)

unique-append :
    (rs : List InboxItem) (r : InboxItem)
    → HasUniqueIds rs
    → Fresh r.id rs
    → HasUniqueIds (rs ++ r ∷ [])
unique-append [] r u h = (tt, tt)
unique-append (s ∷ rs) r u h = (
  Fresh-append s.id rs r u.0 (ground (arith, text_eq_iff s.id r.id, text_eq_iff r.id s.id)),
  unique-append rs r u.1 h.1,
)

stamps-append :
    (rs : List InboxItem) (r : InboxItem)
    → All IsStamped rs
    → IsStamped r
    → All IsStamped (rs ++ r ∷ [])
stamps-append [] r s h = (h, tt)
stamps-append (x ∷ rs) r s h = (s.0, stamps-append rs r s.1 h)

total-append :
    (rs : List InboxItem) (r : InboxItem)
    → total_moves (rs ++ r ∷ []) ≡ total_moves rs + (1 + moves_to r.state)
total-append [] r = omega arith
total-append (x ∷ rs) r = omega (arith, total-append rs r)

enqueue-WellFormed :
    (now : ℕ) (id : Text) (payload : EnqueuePayload) (i j : Inbox)
    → enqueue now id payload i ≡ ok j
    → WellFormed i
    → WellFormed j
unfolding enqueue
enqueue-WellFormed now id payload i j h f = elim (Option-cases (get_by_id id i.rows)) [
  | inr (r, e) ↦ absurd (err_ok _ j (rw e at h))
  | inl e ↦ rw (sym (ok_injective _ j (rw e at h))) record {
    unique = unique-append i.rows (created now id payload) f.unique (Fresh-of_none id i.rows e);
    stamps = stamps-append i.rows (created now id payload) f.stamps refl;
    counted = omega (arith, f.counted, total-append i.rows (created now id payload));
  }
]

-- In every inbox that the calls reach, ids are unique, every item has the stamps of its state, and
-- the callback has run once for every insert and for every move that led to the items' states.
pub Reachable-WellFormed : (i : Inbox) → Reachable i → WellFormed i
Reachable-WellFormed _ at_start = record { unique = tt; stamps = tt; counted = refl }
Reachable-WellFormed j (enqueued {i} now id payload h r) =
    enqueue-WellFormed now id payload i j h (Reachable-WellFormed i r)
Reachable-WellFormed j (advanced {i} {id} {target} a r) =
    Advance-WellFormed id target i j a (Reachable-WellFormed i r)

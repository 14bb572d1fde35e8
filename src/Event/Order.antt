-- ===== src/Event/Order.antt =====
-- The order of events is total and transitive, and sorting by it keeps the events.
use agent_monitors.Prelude.{
  ◌≡◌, inl, inr, true, false, List, [], ◌∷◌, arith, In, All, text_leb_total, text_leb_antisym,
  text_leb_trans,
}
use agent_monitors.Event.{MonitorEvent, event_leb, insert_event, sort_events}

pub event_leb_total : (a b : MonitorEvent) → event_leb a b ≡ false → event_leb b a ≡ true
unfolding event_leb
event_leb_total a b h = ground (arith, text_leb_total a.id b.id)

pub event_leb_trans :
    (a b c : MonitorEvent) → event_leb a b ≡ true → event_leb b c ≡ true → event_leb a c ≡ true
unfolding event_leb
event_leb_trans a b c h k = ground (arith, text_leb_trans a.id b.id c.id)

pub event_leb_refl : (a : MonitorEvent) → event_leb a a ≡ true
unfolding event_leb
event_leb_refl a = ground (arith, text_leb_total a.id a.id)

abbrev pub IsBefore : MonitorEvent → MonitorEvent → Type 0
IsBefore a b = event_leb a b ≡ true

abbrev pub IsSorted : List MonitorEvent → Type 0
IsSorted [] = Unit {0}
IsSorted (e ∷ es) = All (IsBefore e) es × IsSorted es

All-IsBefore :
    (a b : MonitorEvent) (es : List MonitorEvent)
    → IsBefore a b
    → All (IsBefore b) es
    → All (IsBefore a) es
All-IsBefore a b [] h k = tt
All-IsBefore a b (e ∷ es) h k = (event_leb_trans a b e h k.0, All-IsBefore a b es h k.1)

insert-All :
    (a e : MonitorEvent) (es : List MonitorEvent)
    → IsBefore a e
    → All (IsBefore a) es
    → All (IsBefore a) (insert_event e es)
unfolding insert_event
insert-All a e [] h k = (h, tt)
insert-All a e (f ∷ fs) h k = ground (arith, insert-All a e fs h k.1)

insert-IsSorted :
    (e : MonitorEvent) (es : List MonitorEvent) → IsSorted es → IsSorted (insert_event e es)
unfolding insert_event
insert-IsSorted e [] s = (tt, tt)
insert-IsSorted e (f ∷ fs) s =
    ground
      (arith, All-IsBefore e f fs, event_leb_total e f, insert-All f e fs, insert-IsSorted e fs s.1)

pub sort-IsSorted : (es : List MonitorEvent) → IsSorted (sort_events es)
unfolding sort_events
sort-IsSorted [] = tt
sort-IsSorted (e ∷ es) = insert-IsSorted e (sort_events es) (sort-IsSorted es)

In-insert : (x e : MonitorEvent) (es : List MonitorEvent) → In x (e ∷ es) → In x (insert_event e es)
unfolding insert_event
In-insert x e [] h = h
In-insert x e (f ∷ fs) h = ground (arith, In-insert x e fs)

In-of_In-insert :
    (x e : MonitorEvent) (es : List MonitorEvent) → In x (insert_event e es) → In x (e ∷ es)
unfolding insert_event
In-of_In-insert x e [] h = h
In-of_In-insert x e (f ∷ fs) h = ground (arith, In-of_In-insert x e fs)

pub In-sort : (x : MonitorEvent) (es : List MonitorEvent) → In x es → In x (sort_events es)
unfolding sort_events
In-sort x [] h = elim h [ ]
In-sort x (e ∷ es) (inl h) = In-insert x e (sort_events es) (inl h)
In-sort x (e ∷ es) (inr h) = In-insert x e (sort_events es) (inr (In-sort x es h))

pub In-of_In-sort : (x : MonitorEvent) (es : List MonitorEvent) → In x (sort_events es) → In x es
unfolding sort_events
In-of_In-sort x [] h = h
In-of_In-sort x (e ∷ es) h = elim (In-of_In-insert x e (sort_events es) h) [
  | inl here ↦ inl here
  | inr there ↦ inr (In-of_In-sort x es there)
]

pub event_leb_antisym :
    (a b : MonitorEvent) → event_leb a b ≡ true → event_leb b a ≡ true → a.id ≡ b.id
unfolding event_leb
event_leb_antisym a b h k = ground (arith, text_leb_antisym a.id b.id)

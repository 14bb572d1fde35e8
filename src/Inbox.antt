-- ===== src/Inbox.antt =====
-- libs/core/src/inbox/inbox-service.ts: the inbox of one database, its rows in the order of
-- insertion, with the state machine of an item. Times are seconds, as the columns keep them; `snapshot` is the column's
-- JSON text. `onMutation` is counted.

pub mod Moves
pub mod Reach
mod Tests
use agent_monitors.Prelude.{
  ℕ, ◌+◌, Bool, true, false, ◌&&◌, ◌||◌, Option, none, some, List, [], ◌∷◌, ◌++◌, map, Text, codes,
  text_eq, keep, all, any, includes, leb, ◌==◌, if◌then◌else◌, or_else, is_some,
}
use agent_monitors.Event.{Urgency, urgency_eq, is_empty}

pub data InboxItemState : Type 0 where
  queued acked in_progress completed failed archived : InboxItemState

pub record InboxItem : Type 0 where
  pub id : Text
  pub monitor_id : Text
  pub state : InboxItemState
  pub urgency : Urgency
  pub title : Text
  pub body : Text
  pub snapshot : Text
  pub tags : List Text
  pub created_at : ℕ
  pub updated_at : ℕ
  pub acked_at : Option ℕ
  pub completed_at : Option ℕ

pub record EnqueuePayload : Type 0 where
  pub monitor_id : Text
  pub urgency : Urgency
  pub title : Text
  pub body : Option Text
  pub snapshot : Option Text
  pub tags : Option (List Text)

pub record Inbox : Type 0 where
  pub rows : List InboxItem
  pub mutations : ℕ

pub data InboxError : Type 0 where
  item_not_found : Text → InboxError
  invalid_transition : InboxItemState → InboxItemState → InboxError
  id_taken : Text → InboxError

pub data Result (A : Type 0) : Type 0 where
  ok : A → Result A
  err : InboxError → Result A

abbrev pub state_rank : InboxItemState → ℕ
state_rank queued = 0
state_rank acked = 1
state_rank in_progress = 2
state_rank completed = 3
state_rank failed = 4
state_rank archived = 5

abbrev pub state_eq : InboxItemState → InboxItemState → Bool
state_eq a b = state_rank a == state_rank b

-- `VALID_TRANSITIONS`
abbrev pub valid_transitions : InboxItemState → List InboxItemState
valid_transitions queued = acked ∷ []
valid_transitions acked = in_progress ∷ []
valid_transitions in_progress = completed ∷ failed ∷ []
valid_transitions completed = archived ∷ []
valid_transitions failed = archived ∷ []
valid_transitions archived = []

abbrev pub is_allowed : InboxItemState → InboxItemState → Bool
is_allowed current target = any (state_eq target) (valid_transitions current)

unfoldable pub get_by_id : Text → List InboxItem → Option InboxItem
get_by_id id [] = none
get_by_id id (r ∷ rs) = if text_eq r.id id then some r else get_by_id id rs

abbrev pub check_transition : Text → InboxItemState → Option InboxItem → Result InboxItem
check_transition id target none = err (item_not_found id)
check_transition id target (some item) =
    if is_allowed item.state target then ok item else err (invalid_transition item.state target)

unfoldable pub require_transition : Text → InboxItemState → Inbox → Result InboxItem
unfolding get_by_id
require_transition id target i = check_transition id target (get_by_id id i.rows)

abbrev pub created : ℕ → Text → EnqueuePayload → InboxItem
created now id payload = record {
  id = id;
  monitor_id = payload.monitor_id;
  state = queued;
  urgency = payload.urgency;
  title = payload.title;
  body = or_else payload.body [];
  snapshot = or_else payload.snapshot (codes "{}");
  tags = or_else payload.tags [];
  created_at = now;
  updated_at = now;
  acked_at = none;
  completed_at = none;
}

-- The insert fails on an id that is there, the primary key. `ulid()` gives the id.
unfoldable pub enqueue : ℕ → Text → EnqueuePayload → Inbox → Result Inbox
unfolding get_by_id
enqueue now id payload i =
    if is_some (get_by_id id i.rows)
    then err (id_taken id)
    else ok record { rows = i.rows ++ created now id payload ∷ []; mutations = i.mutations + 1 }

-- `update().set().where(eq(id))`
abbrev pub set_where : Text → (InboxItem → InboxItem) → List InboxItem → List InboxItem
set_where id set rows = map (λ r. if text_eq r.id id then set r else r) rows

-- The write after the check, with the item that the check returned, and the callback.
abbrev pub then_set :
    Text → (InboxItem → InboxItem → InboxItem) → Inbox → Result InboxItem → Result Inbox
then_set id set i (err e) = err e
then_set id set i (ok item) =
    ok record { rows = set_where id (set item) i.rows; mutations = i.mutations + 1 }

abbrev pub set_acked : ℕ → InboxItem → InboxItem → InboxItem
set_acked now item r = record r { state = acked; acked_at = some now; updated_at = now }

abbrev pub set_started : ℕ → InboxItem → InboxItem → InboxItem
set_started now item r = record r { state = in_progress; updated_at = now }

abbrev pub set_completed : ℕ → InboxItem → InboxItem → InboxItem
set_completed now item r = record r { state = completed; completed_at = some now; updated_at = now }

abbrev pub failed_body : Text → Text → Text
failed_body body error =
    body
    ++ ((if is_empty body then [] else 10 ∷ 10 ∷ (codes "---" ++ (10 ∷ 10 ∷ [])))
        ++ (codes "Error: " ++ error))

-- No error and an empty error leave the body.
abbrev pub set_failed : ℕ → Option Text → InboxItem → InboxItem → InboxItem
set_failed now (some (c ∷ error)) item r = record r {
  state = failed;
  body = failed_body item.body (c ∷ error);
  updated_at = now;
}
set_failed now _ item r = record r { state = failed; updated_at = now }

abbrev pub set_archived : ℕ → InboxItem → InboxItem → InboxItem
set_archived now item r = record r { state = archived; updated_at = now }

unfoldable pub ack : ℕ → Text → Inbox → Result Inbox
ack now id i = then_set id (set_acked now) i (require_transition id acked i)

unfoldable pub start : ℕ → Text → Inbox → Result Inbox
start now id i = then_set id (set_started now) i (require_transition id in_progress i)

unfoldable pub complete : ℕ → Text → Inbox → Result Inbox
complete now id i = then_set id (set_completed now) i (require_transition id completed i)

unfoldable pub fail : ℕ → Text → Option Text → Inbox → Result Inbox
fail now id error i = then_set id (set_failed now error) i (require_transition id failed i)

unfoldable pub archive : ℕ → Text → Inbox → Result Inbox
archive now id i = then_set id (set_archived now) i (require_transition id archived i)

-- A state, or any of several.
pub data StateFilter : Type 0 where
  one_state : InboxItemState → StateFilter
  any_state : List InboxItemState → StateFilter

pub record InboxFilter : Type 0 where
  pub filter_state : Option StateFilter
  pub filter_urgency : Option Urgency
  pub filter_monitor_id : Option Text
  pub since : Option ℕ
  pub until : Option ℕ
  pub filter_tags : List Text

abbrev pub state_condition : Option StateFilter → List (InboxItem → Bool)
state_condition none = []
state_condition (some (one_state s)) = (λ r. state_eq r.state s) ∷ []
state_condition (some (any_state ss)) = (λ r. any (state_eq r.state) ss) ∷ []

-- One condition where the field is given.
abbrev pub when_given : {A : Type 0} → (A → InboxItem → Bool) → Option A → List (InboxItem → Bool)
when_given test none = []
when_given test (some a) = test a ∷ []

-- An empty monitor id is no condition.
abbrev pub non_empty_id : Option Text → Option Text
non_empty_id (some []) = none
non_empty_id o = o

abbrev pub build_conditions : InboxFilter → List (InboxItem → Bool)
build_conditions f =
    state_condition f.filter_state
    ++ when_given (λ u r. urgency_eq r.urgency u) f.filter_urgency
    ++ when_given (λ m r. text_eq r.monitor_id m) (non_empty_id f.filter_monitor_id)
    ++ when_given (λ t r. leb t r.created_at) f.since
    ++ when_given (λ t r. leb r.created_at t) f.until
    ++ map (λ tag r. includes r.tags tag) f.filter_tags

-- The items that meet every condition, the newest first: `ORDER BY` is the database's.
unfoldable pub list_items :
    (List InboxItem → List InboxItem) → Option InboxFilter → Inbox → List InboxItem
list_items order_by_created_at_desc none i = order_by_created_at_desc i.rows
list_items order_by_created_at_desc (some f) i =
    order_by_created_at_desc (keep (λ r. all (λ c. c r) (build_conditions f)) i.rows)

-- ===== src/Event.antt =====
-- A materialized monitor event (`MonitorEventRecord`), the order of events, and the `net` collapse
-- of libs/core/src/runtime/store.ts. Times are milliseconds.
pub mod Order
pub mod Key
pub mod Newest
pub mod Suppressed
mod Tests
use agent_monitors.Prelude.{
  ℕ, ◌+◌, Bool, true, false, not, Option, none, some, List, [], ◌∷◌, ◌++◌, map, Text, codes,
  text_eq, text_leb, keep, get, put, ltb, ◌==◌, if◌then◌else◌, or_else, is_some,
}

pub data Urgency : Type 0 where
  low normal high : Urgency

-- `URGENCY_RANK`
abbrev pub urgency_rank : Urgency → ℕ
urgency_rank low = 0
urgency_rank normal = 1
urgency_rank high = 2

abbrev pub urgency_eq : Urgency → Urgency → Bool
urgency_eq a b = urgency_rank a == urgency_rank b

pub data BaselineStrategy : Type 0 where
  incremental net : BaselineStrategy

-- `snapshot_strategy` is the `strategy` of `snapshotMetadata`; the other payload is not read here.
pub record MonitorEvent : Type 0 where
  pub id : Text
  pub workspace_path : Option Text
  pub monitor_id : Text
  pub urgency : Urgency
  pub title : Text
  pub body : Text
  pub summary : Text
  pub snapshot_text : Option Text
  pub snapshot_strategy : Option Text
  pub diff_text : Option Text
  pub object_key : Option Text
  pub baseline_strategy : BaselineStrategy
  pub created_at : ℕ

-- The order by `(createdAt, id)`.
unfoldable pub event_leb : MonitorEvent → MonitorEvent → Bool
event_leb a b =
    if ltb a.created_at b.created_at
    then true
    else if a.created_at == b.created_at
    then text_leb a.id b.id
    else false

-- A stable sort.
unfoldable pub insert_event : MonitorEvent → List MonitorEvent → List MonitorEvent
insert_event e [] = e ∷ []
insert_event e (f ∷ fs) = if event_leb e f then e ∷ f ∷ fs else f ∷ insert_event e fs

unfoldable pub sort_events : List MonitorEvent → List MonitorEvent
unfolding insert_event event_leb
sort_events [] = []
sort_events (e ∷ es) = insert_event e (sort_events es)

-- The object key of an event that the collapse may fold.
abbrev pub collapsible_object : BaselineStrategy → Option Text → Option Text → Option Text
collapsible_object net (some snapshot) (some key) = some key
collapsible_object _ _ _ = none

abbrev pub collapsible : MonitorEvent → Option Text
collapsible e = collapsible_object e.baseline_strategy e.snapshot_text e.object_key

-- The three parts joined by NUL.
abbrev pub object_group_key : Text → Text → Option Text → Text
object_group_key monitor key workspace = monitor ++ (0 ∷ (key ++ (0 ∷ or_else workspace [])))

unfoldable pub net_collapse_group_key : MonitorEvent → Text
net_collapse_group_key e = elim (collapsible e) [
  | none ↦ codes "singleton:" ++ e.id
  | some key ↦ object_group_key e.monitor_id key e.workspace_path
]

-- The loop over the ordered events: a later event of a group overwrites an earlier one.
unfoldable pub newest_by_object :
    List (Text × MonitorEvent) → List MonitorEvent → List (Text × MonitorEvent)
newest_by_object m [] = m
newest_by_object m (e ∷ es) =
    newest_by_object (if is_some (collapsible e) then put (net_collapse_group_key e) e m else m) es

-- The same loop's second map: how many events each group has.
unfoldable pub group_sizes : List (Text × ℕ) → List MonitorEvent → List (Text × ℕ)
group_sizes m [] = m
group_sizes m (e ∷ es) =
    let key = net_collapse_group_key e in
    group_sizes (if is_some (collapsible e) then put key (or_else (get key m) 0 + 1) m else m) es

pub record NetCollapseView : Type 0 where
  pub delivered : List MonitorEvent
  pub suppressed_ids : List Text
  pub net_group_size_by_key : List (Text × ℕ)

-- An event outside every group, or the newest of its group.
unfoldable pub survives : List (Text × MonitorEvent) → MonitorEvent → Bool
survives newest e = elim (get (net_collapse_group_key e) newest) [
  | none ↦ true
  | some n ↦ text_eq n.id e.id
]

abbrev pub is_empty {ℓ} : {A : Type ℓ} → List A → Bool
is_empty [] = true
is_empty (x ∷ xs) = false

unfoldable pub compute_net_collapse_view : List MonitorEvent → NetCollapseView
unfolding net_collapse_group_key newest_by_object group_sizes survives
compute_net_collapse_view candidates =
    let ordered = sort_events candidates in
    let newest = newest_by_object [] ordered in
    let sizes = group_sizes [] ordered in
    if is_empty newest
    then record { delivered = candidates; suppressed_ids = []; net_group_size_by_key = sizes }
    else record {
      delivered = keep (survives newest) candidates;
      suppressed_ids = map (λ e. e.id) (keep (λ e. not (survives newest e)) candidates);
      net_group_size_by_key = sizes;
    }

-- ===== src/Event/Tests.antt =====
-- Three events, two of them of one object, and the theorems of the collapse at them.
use agent_monitors.Prelude.{
  ℕ, ◌≡◌, refl, ◌↔◌, ◌⊎◌, inl, inr, true, none, some, List, [], ◌∷◌, Text, text_eq, text_leb, get,
  put, In, includes, is_some, arith,
}
use agent_monitors.Event.{
  high, BaselineStrategy, incremental, net, MonitorEvent, event_leb, insert_event, sort_events,
  newest_by_object, group_sizes, survives, net_collapse_group_key, compute_net_collapse_view,
  collapsible,
}
use agent_monitors.Event.Key.{HasPlainParts, SameObject, group_key_injective}
use agent_monitors.Event.Newest.{AreRows, IsLatest, delivered_iff}
use agent_monitors.Event.Suppressed.{IsNewer, suppressed_iff}

abbrev event : ℕ → BaselineStrategy → ℕ → MonitorEvent
event id strategy created_at = record {
  id = id ∷ [];
  workspace_path = none;
  monitor_id = 109 ∷ [];
  urgency = high;
  title = [];
  body = [];
  summary = [];
  snapshot_text = some [];
  snapshot_strategy = none;
  diff_text = none;
  object_key = some (107 ∷ []);
  baseline_strategy = strategy;
  created_at = created_at;
}

abbrev older : MonitorEvent
older = event 97 net 1_000

abbrev newer : MonitorEvent
newer = event 98 net 2_000

abbrev single : MonitorEvent
single = event 99 incremental 3_000

abbrev candidates : List MonitorEvent
candidates = older ∷ newer ∷ single ∷ []

view_delivered : (compute_net_collapse_view candidates).delivered ≡ newer ∷ single ∷ []
unfolding text_eq text_leb get put event_leb insert_event sort_events newest_by_object group_sizes
    survives net_collapse_group_key compute_net_collapse_view
view_delivered = refl

key_injective : (k l : Text) → some k ≡ some l → k ≡ l
key_injective k l e = ground arith

plain_parts :
    (id created_at : ℕ) (strategy : BaselineStrategy)
    → (id ≡ 0 → ⊥)
    → HasPlainParts (event id strategy created_at)
plain_parts id created_at net n = record {
  plain_id = (n, tt);
  plain_monitor = ((λ e. omega arith), tt);
  plain_object = λ key e. grind (arith, e);
}
plain_parts id created_at incremental n = record {
  plain_id = (n, tt);
  plain_monitor = ((λ e. omega arith), tt);
  plain_object = λ key e. grind (arith, e);
}

are_rows : AreRows candidates
are_rows = record {
  distinct = λ a b i j e. grind (arith, i, j, e);
  plain = λ a i. elim i [
    | inl e ↦ rw e (plain_parts 97 1_000 net (λ z. omega arith))
    | inr (inl e) ↦ rw e (plain_parts 98 2_000 net (λ z. omega arith))
    | inr (inr (inl e)) ↦ rw e (plain_parts 99 3_000 incremental (λ z. omega arith))
    | inr (inr (inr e)) ↦ elim e [ ]
  ];
}

same_key : net_collapse_group_key older ≡ net_collapse_group_key newer
unfolding net_collapse_group_key
same_key = refl

group_key_injective_example :
    ((collapsible older ≡ none) × (collapsible newer ≡ none) × (older.id ≡ newer.id))
    ⊎ SameObject older newer
group_key_injective_example =
    group_key_injective older newer (plain_parts 97 1_000 net (λ z. omega arith))
      (plain_parts 98 2_000 net (λ z. omega arith)) same_key

delivered_iff_example :
    In older (compute_net_collapse_view candidates).delivered
    ↔ ((collapsible older ≡ none) ⊎ IsLatest older candidates)
delivered_iff_example = delivered_iff candidates older are_rows (inl refl)

suppressed_iff_example :
    (includes (compute_net_collapse_view candidates).suppressed_ids older.id ≡ true) ↔ (
      (is_some (collapsible older) ≡ true) × (f : MonitorEvent) × In f candidates × IsNewer older f)
suppressed_iff_example = suppressed_iff candidates older are_rows (inl refl)

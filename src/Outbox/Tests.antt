-- ===== src/Outbox/Tests.antt =====
-- An enqueue of one record into an empty outbox, and the theorem at it.
use agent_monitors.Prelude.{
  ◌≡◌, refl, Option, none, some, [], ◌∷◌, ◌++◌, Text, codes, text_eq, length, arith,
}
use agent_monitors.Outbox.{
  RetryInput, MaterializationRetry, ok, enqueue_materialization_retries, add_item,
}
use agent_monitors.Outbox.Capacity.{IsWithin, enqueue_bounded}

abbrev input : RetryInput
input = record {
  id = codes "r";
  workspace_path = none;
  monitor_id = codes "m";
  source_name = codes "s";
  envelope_monitor_id = codes "m";
  envelope_watch_type = codes "s";
  envelope = some (codes "{}");
  error = codes "boom";
}

abbrev row : MaterializationRetry
row = record {
  id = codes "r";
  workspace_path = none;
  monitor_id = codes "m";
  source_name = codes "s";
  envelope = codes "{}";
  envelope_bytes = 2;
  next_attempt_at = 1_007;
  last_error = codes "boom";
  created_at = 7;
}

enqueued : enqueue_materialization_retries length 7 (input ∷ []) [] ≡ ok (row ∷ [], row ∷ [])
unfolding enqueue_materialization_retries add_item text_eq
enqueued = refl

empty-IsWithin : (m : Text) (w : Option Text) → IsWithin [] m w
unfolding IsWithin
empty-IsWithin m w = (omega arith, omega arith)

enqueue_bounded_example :
    (row ∷ [] ≡ [] ++ row ∷ [])
    × (length (row ∷ []) ≡ length (input ∷ []))
    × ((m : Text) (w : Option Text) → IsWithin (row ∷ []) m w)
enqueue_bounded_example = enqueue_bounded length 7 (input ∷ []) [] enqueued empty-IsWithin

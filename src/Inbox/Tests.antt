-- ===== src/Inbox/Tests.antt =====
-- A run of the inbox, and the theorems at it.
use agent_monitors.Prelude.{◌≡◌, refl, none, some, [], ◌∷◌, Text, text_eq, length}
use agent_monitors.Event.{high}
use agent_monitors.Inbox.{
  acked, failed, completed, InboxItem, EnqueuePayload, Inbox, ok, get_by_id, require_transition,
  created, set_acked, set_started, set_failed, enqueue, ack, start, fail, complete, err,
  invalid_transition,
}
use agent_monitors.Inbox.Moves.{Moved, WellFormed, total_moves}
use agent_monitors.Inbox.Reach.{
  Reachable, at_start, enqueued, advanced, by_ack, by_start, by_fail, Advance-Moved,
  Reachable-WellFormed,
}

abbrev payload : EnqueuePayload
payload = record {
  monitor_id = 109 ∷ [];
  urgency = high;
  title = 116 ∷ [];
  body = some (98 ∷ []);
  snapshot = none;
  tags = none;
}

abbrev item_id : Text
item_id = 105 ∷ []

abbrev empty_inbox : Inbox
empty_inbox = record { rows = []; mutations = 0 }

abbrev queued_item : InboxItem
queued_item = created 10 item_id payload

abbrev acked_item : InboxItem
acked_item = set_acked 20 queued_item queued_item

abbrev started_item : InboxItem
started_item = set_started 30 acked_item acked_item

abbrev failed_item : InboxItem
failed_item = set_failed 40 (some (120 ∷ [])) started_item started_item

abbrev holding : InboxItem → Inbox
holding r = record { rows = r ∷ []; mutations = total_moves (r ∷ []) }

enqueue_run : enqueue 10 item_id payload empty_inbox ≡ ok (holding queued_item)
unfolding enqueue get_by_id
enqueue_run = refl

ack_run : ack 20 item_id (holding queued_item) ≡ ok (holding acked_item)
unfolding ack require_transition get_by_id text_eq
ack_run = refl

start_run : start 30 item_id (holding acked_item) ≡ ok (holding started_item)
unfolding start require_transition get_by_id text_eq
start_run = refl

fail_run : fail 40 item_id (some (120 ∷ [])) (holding started_item) ≡ ok (holding failed_item)
unfolding fail require_transition get_by_id text_eq
fail_run = refl

complete_refused :
    complete 40 item_id (holding acked_item) ≡ err (invalid_transition acked completed)
unfolding complete require_transition get_by_id text_eq
complete_refused = refl

failed_text : length failed_item.body ≡ 16
failed_text = refl

failed-Reachable : Reachable (holding failed_item)
failed-Reachable = advanced (by_fail 40 (some (120 ∷ [])) fail_run) (
    advanced (by_start 30 start_run)
      (advanced (by_ack 20 ack_run) (enqueued 10 item_id payload enqueue_run at_start)))

Advance-Moved_example : Moved item_id failed (holding started_item) (holding failed_item)
Advance-Moved_example =
    Advance-Moved item_id failed (holding started_item) (holding failed_item)
      (by_fail 40 (some (120 ∷ [])) fail_run)

Reachable-WellFormed_example : WellFormed (holding failed_item)
Reachable-WellFormed_example = Reachable-WellFormed (holding failed_item) failed-Reachable

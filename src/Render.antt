-- ===== src/Render.antt =====
-- The texts of a delivery: `summarizeEvents`, `recipientSummary`, `toDeliveryEventSummary` and the
-- reminder of libs/core/src/runtime/service.ts, with the two per-recipient queries of store.ts. A
-- time is kept as a number where the source prints it as an ISO date.
use agent_monitors.Prelude.{
  ℕ, suc, ◌+◌, Bool, ◌&&◌, Option, none, some, List, [], ◌∷◌, ◌++◌, Text, codes, text_eq, includes,
  get, put, decimal, if◌then◌else◌, or_else,
}
use agent_monitors.Event.{Urgency, MonitorEvent, is_empty}
use agent_monitors.Store.{EventState, Store}

pub record DeliveryEventSummary : Type 0 where
  pub event_id : Text
  pub monitor_id : Text
  pub title : Text
  pub summary : Text
  pub object_detail : Text
  pub urgency : Urgency
  pub created_at : ℕ
  pub body : Text
  pub diff_text : Option Text

-- `a || b` on texts: the empty text is false.
abbrev pub or_text : Text → Text → Text
or_text a b = if is_empty a then b else a

-- An empty text counts as no text.
abbrev pub non_empty : Option Text → Option Text
non_empty none = none
non_empty (some t) = if is_empty t then none else some t

abbrev pub put_some : Text → Option Text → List (Text × Text) → List (Text × Text)
put_some k none m = m
put_some k (some v) m = put k v m

abbrev pub is_row : Text → List Text → EventState → Bool
is_row session ids r = text_eq r.session_id session && includes ids r.event_id

-- The loop over the rows of the query, with the column that it reads.
unfoldable pub collect :
    (EventState → Option Text)
    → Text
    → List Text
    → List (Text × Text)
    → List EventState
    → List (Text × Text)
collect column session ids m [] = m
collect column session ids m (r ∷ rs) =
    collect column session ids
      (if is_row session ids r then put_some r.event_id (column r) m else m) rs

unfoldable pub interpret_digests_for_session : Text → List Text → Store → List (Text × Text)
interpret_digests_for_session session ids s =
    collect (λ r. non_empty r.interpret_digest) session ids [] s.states

unfoldable pub per_recipient_diffs_for_session : Text → List Text → Store → List (Text × Text)
per_recipient_diffs_for_session session ids s = collect (λ r. r.diff_text) session ids [] s.states

unfoldable pub recipient_summary : MonitorEvent → List (Text × Text) → Text
recipient_summary e digests =
    or_else (get e.id digests) (or_text e.summary (or_text e.body e.title))

-- `perRecipientDiffs.get(event.id) ?? event.diffText`
abbrev pub recipient_diff : Option Text → Option Text → Option Text
recipient_diff none shared = shared
recipient_diff (some own) shared = some own

unfoldable pub to_delivery_event_summary :
    MonitorEvent → List (Text × Text) → List (Text × Text) → DeliveryEventSummary
to_delivery_event_summary e digests diffs = record {
  event_id = e.id;
  monitor_id = e.monitor_id;
  title = e.title;
  summary = recipient_summary e digests;
  object_detail = e.summary;
  urgency = e.urgency;
  created_at = e.created_at;
  body = e.body;
  diff_text = non_empty (recipient_diff (get e.id diffs) e.diff_text);
}

-- `lines.join('\n')`
unfoldable pub join_lines : List Text → Text
join_lines [] = []
join_lines (l ∷ []) = l
join_lines (l ∷ m ∷ ls) = l ++ (10 ∷ join_lines (m ∷ ls))

-- The numbered lines from a given index on, over titles and summaries.
unfoldable pub numbered : ℕ → List (Text × Text) → List Text
numbered i [] = []
numbered i ((title, summary) ∷ es) =
    (decimal (i + 1) ++ (codes ". " ++ or_text summary title)) ∷ numbered (suc i) es

unfoldable pub summarize_events : List (Text × Text) → Text
summarize_events es = join_lines (numbered 0 es)

-- The entries that `summarizeEvents` is given.
unfoldable pub summary_lines : List (Text × Text) → List MonitorEvent → List (Text × Text)
summary_lines digests [] = []
summary_lines digests (e ∷ es) = (e.title, recipient_summary e digests) ∷ summary_lines digests es

abbrev pub reminder_message : Text
reminder_message = codes "Monitored changes are pending."

abbrev pub coalesced_normal_suffix : Text
coalesced_normal_suffix = 10 ∷ 10 ∷ reminder_message

abbrev pub full_history_command : Text → Text
full_history_command session =
    codes "agentmonitors events list --session " ++ (session ++ codes " --format json")

abbrev pub unread_details_command : Text → Text
unread_details_command session =
    codes "agentmonitors events list --session " ++ (session ++ codes " --unread --format json")

unfoldable pub recap_message : Text → List (Text × Text) → Text
recap_message session entries = join_lines (
    codes "Recap of recent AgentMon activity since your last recap:"
    ∷ summarize_events entries
    ∷ (codes "Run `" ++ (full_history_command session ++ codes "` for recent history."))
    ∷ (codes "Run `" ++ (unread_details_command session ++ codes "` for unread details."))
    ∷ [])

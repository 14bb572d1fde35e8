-- ===== src/Outbox.antt =====
-- libs/core/src/runtime/store.ts: `enqueueMaterializationRetries`, the durable outbox of failed
-- materializations. `byte_length` stands for `Buffer.byteLength`; an input carries what
-- `serializeRetryEnvelope` gives for its envelope and the id that its ULID factory gives.
pub mod Capacity
mod Tests
use agent_monitors.Prelude.{
  ℕ, ◌+◌, Bool, true, false, ◌&&◌, ◌||◌, not, Option, none, some, List, [], ◌∷◌, ◌++◌, map, Text,
  text_eq, option_text_eq, keep, length, take, leb, ltb, any, if◌then◌else◌,
}

pub record RetryInput : Type 0 where
  pub id : Text
  pub workspace_path : Option Text
  pub monitor_id : Text
  pub source_name : Text
  pub envelope_monitor_id : Text
  pub envelope_watch_type : Text
  pub envelope : Option Text
  pub error : Text

-- A row of the outbox that is pending; the attempts that follow are not made here.
pub record MaterializationRetry : Type 0 where
  pub id : Text
  pub workspace_path : Option Text
  pub monitor_id : Text
  pub source_name : Text
  pub envelope : Text
  pub envelope_bytes : ℕ
  pub next_attempt_at : ℕ
  pub last_error : Text
  pub created_at : ℕ

pub data EnqueueError : Type 0 where
  not_serializable wrong_monitor wrong_source no_capacity : EnqueueError

pub data Enqueued (A : Type 0) : Type 0 where
  ok : A → Enqueued A
  err : EnqueueError → Enqueued A

infixl 5 ◌>>=◌
abbrev pub ◌>>=◌ : {A B : Type 0} → Enqueued A → (A → Enqueued B) → Enqueued B
ok a >>= f = f a
err e >>= f = err e

abbrev pub max_records : ℕ
max_records = 256

abbrev pub max_bytes : ℕ
max_bytes = 8_388_608

abbrev first_delay_ms : ℕ
first_delay_ms = 1_000

-- A control character becomes a space; the first 1024 code units stay.
abbrev without_controls : Text → Text
without_controls = map (λ c. if ltb c 32 || (leb 127 c && leb c 159) then 32 else c)

abbrev safe_retry_error : Text → Text
safe_retry_error message = take 1_024 (without_controls message)

-- `materializationRetryKey`
abbrev pub is_route : Text → Option Text → Text → Option Text → Bool
is_route monitor workspace m w = text_eq m monitor && option_text_eq w workspace

pub record Addition : Type 0 where
  pub monitor_id : Text
  pub workspace_path : Option Text
  pub count : ℕ
  pub bytes : ℕ

-- `additions`: one entry for each route, in the order of the first item.
unfoldable pub add_item : Text → Option Text → ℕ → List Addition → List Addition
add_item m w b [] = record { monitor_id = m; workspace_path = w; count = 1; bytes = b } ∷ []
add_item m w b (a ∷ more) =
    if is_route m w a.monitor_id a.workspace_path
    then record a { count = a.count + 1; bytes = a.bytes + b } ∷ more
    else a ∷ add_item m w b more

unfoldable pub add_items : List Addition → List MaterializationRetry → List Addition
unfolding add_item
add_items acc [] = acc
add_items acc (r ∷ rs) = add_items (add_item r.monitor_id r.workspace_path r.envelope_bytes acc) rs

abbrev pub total_bytes : List MaterializationRetry → ℕ
total_bytes [] = 0
total_bytes (r ∷ rs) = r.envelope_bytes + total_bytes rs

abbrev pub on_route : Text → Option Text → List MaterializationRetry → List MaterializationRetry
on_route m w = keep (λ r. is_route m w r.monitor_id r.workspace_path)

abbrev pub fits : List MaterializationRetry → Addition → Bool
fits rows a =
    let used = on_route a.monitor_id a.workspace_path rows in
    leb (length used + a.count) max_records && leb (total_bytes used + a.bytes) max_bytes

module _ (byte_length : Text → ℕ) where
  abbrev pub prepared : ℕ → RetryInput → Text → MaterializationRetry
  prepared now i envelope = record {
    id = i.id;
    workspace_path = i.workspace_path;
    monitor_id = i.monitor_id;
    source_name = i.source_name;
    envelope = envelope;
    envelope_bytes = byte_length envelope;
    next_attempt_at = now + first_delay_ms;
    last_error = safe_retry_error i.error;
    created_at = now;
  }

  abbrev pub prepare_with : ℕ → RetryInput → Option Text → Enqueued MaterializationRetry
  prepare_with now i none = err not_serializable
  prepare_with now i (some envelope) =
      if not (text_eq i.envelope_monitor_id i.monitor_id)
      then err wrong_monitor
      else if not (text_eq i.envelope_watch_type i.source_name)
      then err wrong_source
      else ok (prepared now i envelope)

  unfoldable pub prepare_all : ℕ → List RetryInput → Enqueued (List MaterializationRetry)
  prepare_all now [] = ok []
  prepare_all now (i ∷ inputs) =
      prepare_with now i i.envelope >>= λ r. prepare_all now inputs >>= λ rs. ok (r ∷ rs)

  -- The records that are enqueued, and the outbox after them.
  unfoldable pub enqueue_materialization_retries :
      ℕ
      → List RetryInput
      → List MaterializationRetry
      → Enqueued (List MaterializationRetry × List MaterializationRetry)
  unfolding prepare_all add_items
  enqueue_materialization_retries now [] rows = ok ([], rows)
  enqueue_materialization_retries now (i ∷ inputs) rows = prepare_all now (i ∷ inputs) >>= λ news.
      if any (λ a. not (fits rows a)) (add_items [] news)
      then err no_capacity
      else ok (news, rows ++ news)

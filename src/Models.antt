-- ===== src/Models.antt =====
-- src/argus/common/models.py: the rows of the five tables. Identifiers (UUIDs and serial numbers)
-- are natural numbers that are only compared. A time is a number of microseconds, and a
-- sum of money is a number of millionths of a dollar (the cost of an LLM call, of hundredths of one).
pub mod Defaults
use argus_core.Common.{ℕ, ◌*◌, Bool, List, Option, none, ◌==◌}
use argus_core.Common.Text.{Text}

-- The values that the services write into `raw_events.status`.
pub data Status : Type 0 where
  new processed sent duplicate failed skipped : Status

abbrev pub rank : Status → ℕ
rank Status.new = 0
rank Status.processed = 1
rank Status.sent = 2
rank Status.duplicate = 3
rank Status.failed = 4
rank Status.skipped = 5

-- `event.status == "..."`.
abbrev pub status_eq : Status → Status → Bool
status_eq a b = rank a == rank b

-- The keys that the pollers write into the JSON column `poller_meta`.
pub record PollerMeta : Type 0 where
  pub filer_name : Option Text
  pub filer_role : Option Text
  pub transaction_type : Option Text
  pub value_usd : Option ℕ

pub record RawEvent : Type 0 where
  pub id : ℕ
  pub source : Text
  pub external_id : Text
  pub content_hash : Text
  pub ticker : Option Text
  pub title : Text
  pub body : Text
  pub url : Text
  pub fetched_at : ℕ
  pub status : Status
  pub error_message : Option Text
  pub retry_count : ℕ
  pub duplicate_of : Option ℕ
  pub relevance_score : Option ℕ
  pub sentiment : Option Text
  pub llm_summary : Option Text
  pub llm_classified_at : Option ℕ
  pub sent_at : Option ℕ
  pub poller_meta : Option PollerMeta

-- `id` and `created_at` are filled in by the database and enter no decision.
pub record LlmCall : Type 0 where
  pub event_id : ℕ
  pub provider : Text
  pub model : Text
  pub prompt_tokens : ℕ
  pub completion_tokens : ℕ
  pub cost_usd : ℕ
  pub latency_ms : ℕ

pub record Notification : Type 0 where
  pub event_id : ℕ
  pub channel : Text
  pub delivered : Bool
  pub error : Option Text

pub record PollingState : Type 0 where
  pub source : Text
  pub cursor : Text

pub record Form4Cluster : Type 0 where
  pub id : ℕ
  pub ticker : Text
  pub member_event_ids : List ℕ
  pub window_start : ℕ
  pub window_end : ℕ
  pub alerted_at : Option ℕ
  pub created_at : ℕ

-- The columns that a poller passes to `RawEvent(...)`.
pub record Draft : Type 0 where
  pub source : Text
  pub external_id : Text
  pub content_hash : Text
  pub ticker : Option Text
  pub title : Text
  pub body : Text
  pub url : Text
  pub poller_meta : Option PollerMeta

-- `RawEvent(...)`: the omitted columns read as their Python-side defaults at once, `id` from
-- `uuid.uuid4` and `fetched_at` from `_now`; a column with no default is NULL.
unfoldable pub new_event : ℕ → ℕ → Draft → RawEvent
new_event id now d = record {
  id = id;
  source = d.source;
  external_id = d.external_id;
  content_hash = d.content_hash;
  ticker = d.ticker;
  title = d.title;
  body = d.body;
  url = d.url;
  fetched_at = now;
  status = Status.new;
  error_message = none;
  retry_count = 0;
  duplicate_of = none;
  relevance_score = none;
  sentiment = none;
  llm_summary = none;
  llm_classified_at = none;
  sent_at = none;
  poller_meta = d.poller_meta;
}

-- `timedelta(hours=h)`.
abbrev pub hours : ℕ → ℕ
hours h = h * 3600000000

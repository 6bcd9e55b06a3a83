-- ===== src/Store.antt =====
-- The shared Postgres database, as a session sees it: the tables, the identity map (a row that a
-- service has changed is written back under its id before the next query), and queries.
mod Rows
pub mod Engine
use argus_core.Common.{
  ℕ, Bool, true, false, ◌&&◌, List, [], ◌∷◌, ◌++◌, Option, none, some, ◌==◌, any, if◌then◌else◌,
}
use argus_core.Common.Text.{Text, text_eq}
use argus_core.Models.{RawEvent, LlmCall, Notification, PollingState, Form4Cluster}
unfoldable pub use Rows.*

pub record Db : Type 0 where
  pub raw_events : List RawEvent
  pub llm_calls : List LlmCall
  pub notifications : List Notification
  pub polling_state : List PollingState
  pub form4_clusters : List Form4Cluster

abbrev pub empty : Db
empty = record {
  raw_events = [];
  llm_calls = [];
  notifications = [];
  polling_state = [];
  form4_clusters = [];
}

-- The flush of a changed row.
unfoldable pub write : RawEvent → Db → Db
write e db = record db { raw_events = save e db.raw_events }

-- `session.add(LlmCall(...))` and `session.add(Notification(...))`.
unfoldable pub add_llm_call : LlmCall → Db → Db
add_llm_call c db = record db { llm_calls = db.llm_calls ++ c ∷ [] }

unfoldable pub add_notification : Notification → Db → Db
add_notification n db = record db { notifications = db.notifications ++ n ∷ [] }

-- `select(RawEvent).where(source == ..., external_id == ...)` has a row.
unfoldable pub exists_external : Text → Text → List RawEvent → Bool
exists_external source external_id rows =
    any (λ e. text_eq e.source source && text_eq e.external_id external_id) rows

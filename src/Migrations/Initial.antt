-- ===== src/Migrations/Initial.antt =====
-- src/alembic/versions/0001_initial.py: the first schema.
use argus_core.Common.{List, [], ◌∷◌, none, some, true}
use argus_core.Common.Text.{codes}
use argus_core.Migrations.Schema.{
  ColumnType, Column, Table, Index, Operation, optional, required, with_default, referring, primary,
}

abbrev pub raw_events : Table
raw_events = record {
  name = codes "raw_events";
  columns =
      with_default (codes "gen_random_uuid()") (primary (codes "id") ColumnType.uuid)
      ∷ required (codes "source") (ColumnType.string 32)
      ∷ required (codes "external_id") ColumnType.text
      ∷ required (codes "content_hash") (ColumnType.string 64)
      ∷ optional (codes "ticker") (ColumnType.string 16)
      ∷ required (codes "title") ColumnType.text
      ∷ required (codes "body") ColumnType.text
      ∷ required (codes "url") ColumnType.text
      ∷ with_default (codes "now()") (required (codes "fetched_at") ColumnType.timestamp)
      ∷ with_default (codes "'new'") (required (codes "status") (ColumnType.string 16))
      ∷ optional (codes "error_message") ColumnType.text
      ∷ with_default (codes "0") (required (codes "retry_count") ColumnType.integer)
      ∷ optional (codes "relevance_score") ColumnType.integer
      ∷ optional (codes "sentiment") (ColumnType.string 16)
      ∷ optional (codes "llm_summary") ColumnType.text
      ∷ optional (codes "llm_classified_at") ColumnType.timestamp
      ∷ optional (codes "sent_at") ColumnType.timestamp
      ∷ optional (codes "poller_meta") ColumnType.jsonb
      ∷ [];
  constraints =
      record {
        name = codes "uq_source_external";
        columns = codes "source" ∷ codes "external_id" ∷ [];
      }
      ∷ [];
}

abbrev pub idx_events_status : Index
idx_events_status = record {
  name = codes "idx_events_status";
  table_name = codes "raw_events";
  columns = codes "status" ∷ codes "fetched_at" ∷ [];
  where_clause = none;
}

abbrev pub idx_events_score : Index
idx_events_score = record {
  name = codes "idx_events_score";
  table_name = codes "raw_events";
  columns = codes "relevance_score" ∷ [];
  where_clause = some (codes "status = 'processed'");
}

abbrev pub idx_events_hash : Index
idx_events_hash = record {
  name = codes "idx_events_hash";
  table_name = codes "raw_events";
  columns = codes "content_hash" ∷ [];
  where_clause = none;
}

-- `sa.Column("id", sa.BigInteger, primary_key=True, autoincrement=True)`.
abbrev serial_id : Column
serial_id = record (primary (codes "id") ColumnType.big_integer) { autoincrement = true }

abbrev pub llm_calls : Table
llm_calls = record {
  name = codes "llm_calls";
  columns =
      serial_id
      ∷ referring (codes "raw_events.id") (some (codes "CASCADE"))
          (required (codes "event_id") ColumnType.uuid)
      ∷ required (codes "provider") (ColumnType.string 32)
      ∷ required (codes "model") (ColumnType.string 64)
      ∷ optional (codes "prompt_tokens") ColumnType.integer
      ∷ optional (codes "completion_tokens") ColumnType.integer
      ∷ optional (codes "cost_usd") (ColumnType.numeric 10 6)
      ∷ optional (codes "latency_ms") ColumnType.integer
      ∷ with_default (codes "now()") (required (codes "created_at") ColumnType.timestamp)
      ∷ [];
  constraints = [];
}

abbrev pub idx_llm_event : Index
idx_llm_event = record {
  name = codes "idx_llm_event";
  table_name = codes "llm_calls";
  columns = codes "event_id" ∷ [];
  where_clause = none;
}

abbrev pub notifications : Table
notifications = record {
  name = codes "notifications";
  columns =
      serial_id
      ∷ referring (codes "raw_events.id") none (required (codes "event_id") ColumnType.uuid)
      ∷ required (codes "channel") (ColumnType.string 16)
      ∷ optional (codes "webhook_id") (ColumnType.string 64)
      ∷ with_default (codes "false") (required (codes "delivered") ColumnType.boolean)
      ∷ optional (codes "discord_msg_id") (ColumnType.string 64)
      ∷ optional (codes "error") ColumnType.text
      ∷ with_default (codes "now()") (optional (codes "sent_at") ColumnType.timestamp)
      ∷ [];
  constraints = [];
}

abbrev pub polling_state : Table
polling_state = record {
  name = codes "polling_state";
  columns =
      primary (codes "source") (ColumnType.string 128)
      ∷ required (codes "cursor") ColumnType.text
      ∷ with_default (codes "now()") (required (codes "updated_at") ColumnType.timestamp)
      ∷ [];
  constraints = [];
}

unfoldable pub upgrade : List Operation
upgrade =
    Operation.create_extension (codes "pgcrypto")
    ∷ Operation.create_table raw_events
    ∷ Operation.create_index idx_events_status
    ∷ Operation.create_index idx_events_score
    ∷ Operation.create_index idx_events_hash
    ∷ Operation.create_table llm_calls
    ∷ Operation.create_index idx_llm_event
    ∷ Operation.create_table notifications
    ∷ Operation.create_table polling_state
    ∷ []

unfoldable pub downgrade : List Operation
downgrade =
    Operation.drop_table (codes "polling_state")
    ∷ Operation.drop_table (codes "notifications")
    ∷ Operation.drop_table (codes "llm_calls")
    ∷ Operation.drop_index (codes "idx_events_hash") (codes "raw_events")
    ∷ Operation.drop_index (codes "idx_events_score") (codes "raw_events")
    ∷ Operation.drop_index (codes "idx_events_status") (codes "raw_events")
    ∷ Operation.drop_table (codes "raw_events")
    ∷ []

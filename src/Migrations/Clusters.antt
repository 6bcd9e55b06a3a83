-- ===== src/Migrations/Clusters.antt =====
-- src/alembic/versions/0003_form4_clusters.py: the table of Form 4 clusters.
use argus_core.Common.{List, [], ◌∷◌, none}
use argus_core.Common.Text.{codes}
use argus_core.Migrations.Schema.{ColumnType, Table, Index, Operation, optional, required, primary}

abbrev pub form4_clusters : Table
form4_clusters = record {
  name = codes "form4_clusters";
  columns =
      primary (codes "id") ColumnType.uuid
      ∷ required (codes "ticker") (ColumnType.string 16)
      ∷ required (codes "member_event_ids") ColumnType.jsonb
      ∷ required (codes "window_start") ColumnType.timestamp
      ∷ required (codes "window_end") ColumnType.timestamp
      ∷ optional (codes "alerted_at") ColumnType.timestamp
      ∷ required (codes "created_at") ColumnType.timestamp
      ∷ [];
  constraints = [];
}

abbrev pub idx_ticker_created : Index
idx_ticker_created = record {
  name = codes "idx_form4_clusters_ticker_created";
  table_name = codes "form4_clusters";
  columns = codes "ticker" ∷ codes "created_at" ∷ [];
  where_clause = none;
}

unfoldable pub upgrade : List Operation
upgrade = Operation.create_table form4_clusters ∷ Operation.create_index idx_ticker_created ∷ []

unfoldable pub downgrade : List Operation
downgrade =
    Operation.drop_index (codes "idx_form4_clusters_ticker_created") (codes "form4_clusters")
    ∷ Operation.drop_table (codes "form4_clusters")
    ∷ []

-- ===== src/Migrations/DuplicateOf.antt =====
-- src/alembic/versions/0002_duplicate_of.py: the column that points at the original of an event.
use argus_core.Common.{List, [], ◌∷◌, none}
use argus_core.Common.Text.{codes}
use argus_core.Migrations.Schema.{ColumnType, Column, Operation, optional, referring}

abbrev pub duplicate_of : Column
duplicate_of =
    referring (codes "raw_events.id") none (optional (codes "duplicate_of") ColumnType.uuid)

unfoldable pub upgrade : List Operation
upgrade = Operation.add_column (codes "raw_events") duplicate_of ∷ []

unfoldable pub downgrade : List Operation
downgrade = Operation.drop_column (codes "raw_events") (codes "duplicate_of") ∷ []

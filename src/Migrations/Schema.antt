-- ===== src/Migrations/Schema.antt =====
-- What the revisions of src/alembic/versions call: the operations of alembic's `op`, the tables,
-- columns and indexes that they name, and what PostgreSQL promises of them.
use argus_core.Common.{ℕ, ◌≡◌, Bool, true, false, List, [], ◌∷◌, Option, none, some}
use argus_core.Common.Text.{Text}

pub data ColumnType : Type 0 where
  uuid text big_integer integer boolean timestamp jsonb : ColumnType
  string : ℕ → ColumnType
  numeric : ℕ → ℕ → ColumnType

-- `sa.ForeignKey(target, ondelete=...)`.
pub record ForeignKey : Type 0 where
  pub target : Text
  pub ondelete : Option Text

-- `sa.Column`; `nullable` is what the call says or, by SQLAlchemy's default, what `primary_key` says.
pub record Column : Type 0 where
  pub name : Text
  pub kind : ColumnType
  pub primary_key : Bool
  pub autoincrement : Bool
  pub nullable : Bool
  pub server_default : Option Text
  pub foreign_key : Option ForeignKey

pub record UniqueConstraint : Type 0 where
  pub name : Text
  pub columns : List Text

pub record Table : Type 0 where
  pub name : Text
  pub columns : List Column
  pub constraints : List UniqueConstraint

pub record Index : Type 0 where
  pub name : Text
  pub table_name : Text
  pub columns : List Text
  pub where_clause : Option Text

pub data Operation : Type 0 where
  create_extension : Text → Operation
  create_table : Table → Operation
  create_index : Index → Operation
  add_column : Text → Column → Operation
  drop_table : Text → Operation
  drop_index : Text → Text → Operation
  drop_column : Text → Text → Operation

-- A nullable column, and one with `nullable=False`.
abbrev pub optional : Text → ColumnType → Column
optional name kind = record {
  name = name;
  kind = kind;
  primary_key = false;
  autoincrement = false;
  nullable = true;
  server_default = none;
  foreign_key = none;
}

abbrev pub required : Text → ColumnType → Column
required name kind = record (optional name kind) { nullable = false }

abbrev pub with_default : Text → Column → Column
with_default d c = record c { server_default = some d }

abbrev pub referring : Text → Option Text → Column → Column
referring target ondelete c = record c {
  foreign_key = some (record { target = target; ondelete = ondelete });
}

abbrev pub primary : Text → ColumnType → Column
primary name kind = record (required name kind) { primary_key = true }

-- The database server: what an operation makes of a schema, `none` when it is refused. The laws are
-- what its manual says: dropping what was just created gives the schema back, and dropping a table
-- drops its indexes with it.
pub record Server : Type 1 where
  pub Schema : Type 0
  pub execute : Operation → Schema → Option Schema
  pub drop_created_table :
      (t : Table) (s r : Schema)
      → execute (create_table t) s ≡ some r
      → execute (drop_table t.name) r ≡ some s
  pub drop_created_index :
      (i : Index) (s r : Schema)
      → execute (create_index i) s ≡ some r
      → execute (drop_index i.name i.table_name) r ≡ some s
  pub drop_added_column :
      (t : Text) (c : Column) (s r : Schema)
      → execute (add_column t c) s ≡ some r
      → execute (drop_column t c.name) r ≡ some s
  pub drop_table_with_index :
      (i : Index) (s r : Schema)
      → execute (create_index i) s ≡ some r
      → execute (drop_table i.table_name) r ≡ execute (drop_table i.table_name) s

-- The operations of a script in order, up to the first that is refused.
unfoldable pub run : (server : Server) → List Operation → server.Schema → Option server.Schema
run server [] s = some s
run server (o ∷ os) s = elim (server.execute o s) [ none ↦ none | some r ↦ run server os r ]

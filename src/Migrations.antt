-- ===== src/Migrations.antt =====
-- src/alembic/versions: the revisions of the database schema as scripts of the operations they call,
-- and the path of revisions between the empty base and the head.
pub mod Initial
pub mod DuplicateOf
pub mod Clusters
pub mod Schema
pub mod Lock
pub mod Paths
pub mod Reversal
pub mod Values
pub mod Typed

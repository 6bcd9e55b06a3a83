-- ===== src/Tests/Migrating.antt =====
-- The theorem on the migrations, applied to a server that keeps the objects in the order of their
-- creation and drops the newest.
use argus_core.Common.{
  suc, drop, take, ℕ, ◌≡◌, refl, sym, List, [], ◌∷◌, Option, none, some, if◌then◌else◌,
}
use argus_core.Common.Text.{Text, codes, text_eq, text_eq_refl}
use argus_core.Migrations.Schema.{Table, Index, Column, Operation, Server, run}
use argus_core.Migrations.Initial
use argus_core.Migrations.DuplicateOf
use argus_core.Migrations.Clusters
use argus_core.Migrations.Paths.{history, upgrades, downgrades}
use argus_core.Migrations.Reversal.{downgrade-upgrade}

data Item : Type 0 where
  extension : Text → Item
  table : Text → Item
  index : Text → Text → Item
  column : Text → Text → Item

newest_table : Text → List Item → Option (List Item)
newest_table t [] = none
newest_table t (Item.table n ∷ s) = if text_eq n t then some s else none
newest_table t (Item.index n on ∷ s) =
    let rest = newest_table t s in if text_eq on t then rest else none
newest_table t (_ ∷ s) = none

newest_index : Text → Text → List Item → Option (List Item)
newest_index i t (Item.index n on ∷ s) =
    if text_eq n i then (if text_eq on t then some s else none) else none
newest_index i t _ = none

newest_column : Text → Text → List Item → Option (List Item)
newest_column t c (Item.column on n ∷ s) =
    if text_eq on t then (if text_eq n c then some s else none) else none
newest_column t c _ = none

apply : Operation → List Item → Option (List Item)
unfolding newest_table newest_index newest_column
apply (Operation.create_extension e) s = some (Item.extension e ∷ s)
apply (Operation.create_table t) s = some (Item.table t.name ∷ s)
apply (Operation.create_index i) s = some (Item.index i.name i.table_name ∷ s)
apply (Operation.add_column t c) s = some (Item.column t c.name ∷ s)
apply (Operation.drop_table t) s = newest_table t s
apply (Operation.drop_index i t) s = newest_index i t s
apply (Operation.drop_column t c) s = newest_column t c s

newest_table_back : (t : Text) (s : List Item) → newest_table t (Item.table t ∷ s) ≡ some s
unfolding newest_table
newest_table_back t s = rw (text_eq_refl t)

covered : (i t : Text) (s : List Item) → newest_table t (Item.index i t ∷ s) ≡ newest_table t s
unfolding newest_table
covered i t s = rw (text_eq_refl t)

newest_index_back : (i t : Text) (s : List Item) → newest_index i t (Item.index i t ∷ s) ≡ some s
unfolding newest_index
newest_index_back i t s = rw (text_eq_refl i, text_eq_refl t)

newest_column_back : (t c : Text) (s : List Item) → newest_column t c (Item.column t c ∷ s) ≡ some s
unfolding newest_column
newest_column_back t c s = rw (text_eq_refl t, text_eq_refl c)

of_some : {A : Type 0} {a b : A} → some a ≡ some b → a ≡ b
of_some h = cc

created_table :
    (t : Table) (s r : List Item)
    → apply (Operation.create_table t) s ≡ some r
    → apply (Operation.drop_table t.name) r ≡ some s
unfolding apply
created_table t s r e = rw (sym (of_some e), newest_table_back t.name s)

created_index :
    (i : Index) (s r : List Item)
    → apply (Operation.create_index i) s ≡ some r
    → apply (Operation.drop_index i.name i.table_name) r ≡ some s
unfolding apply
created_index i s r e = rw (sym (of_some e), newest_index_back i.name i.table_name s)

added_column :
    (t : Text) (c : Column) (s r : List Item)
    → apply (Operation.add_column t c) s ≡ some r
    → apply (Operation.drop_column t c.name) r ≡ some s
unfolding apply
added_column t c s r e = rw (sym (of_some e), newest_column_back t c.name s)

with_index :
    (i : Index) (s r : List Item)
    → apply (Operation.create_index i) s ≡ some r
    → apply (Operation.drop_table i.table_name) r ≡ apply (Operation.drop_table i.table_name) s
unfolding apply
with_index i s r e = rw (sym (of_some e), covered i.name i.table_name s)

abbrev server : Server
server = record {
  Schema = List Item;
  execute = apply;
  drop_created_table = created_table;
  drop_created_index = created_index;
  drop_added_column = added_column;
  drop_table_with_index = with_index;
}

abbrev extended : List Item
extended = Item.extension (codes "pgcrypto") ∷ []

abbrev head : List Item
head =
    Item.index (codes "idx_form4_clusters_ticker_created") (codes "form4_clusters")
    ∷ Item.table (codes "form4_clusters")
    ∷ Item.column (codes "raw_events") (codes "duplicate_of")
    ∷ Item.table (codes "polling_state")
    ∷ Item.table (codes "notifications")
    ∷ Item.index (codes "idx_llm_event") (codes "llm_calls")
    ∷ Item.table (codes "llm_calls")
    ∷ Item.index (codes "idx_events_hash") (codes "raw_events")
    ∷ Item.index (codes "idx_events_score") (codes "raw_events")
    ∷ Item.index (codes "idx_events_status") (codes "raw_events")
    ∷ Item.table (codes "raw_events")
    ∷ extended

upgraded : run server (upgrades history) [] ≡ some head
unfolding run apply upgrades Initial.upgrade DuplicateOf.upgrade Clusters.upgrade
upgraded = refl

downgrade-upgrade_example :
    (run server (downgrades history) head ≡ some extended)
    × ((k : ℕ)
        → (mid : List Item) × (run server (upgrades (take (suc k) history)) [] ≡ some mid)
          × (run server (downgrades (drop (suc k) history)) head ≡ some mid))
unfolding apply
downgrade-upgrade_example = downgrade-upgrade server [] extended head refl upgraded

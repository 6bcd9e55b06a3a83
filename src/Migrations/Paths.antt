-- ===== src/Migrations/Paths.antt =====
-- The chain of revisions of src/alembic/versions, and the scripts along it: a downgrade after an
-- upgrade.
use argus_core.Common.{
  ℕ, zero, suc, drop, take, ◌≡◌, refl, sym, ◌∙◌, List, [], ◌∷◌, ◌++◌, Option, none, some, arith,
  Option-cases, inl, inr,
}
use mathlib.Core.List.{append_assoc}
use argus_core.Common.Text.{Text, codes}
use argus_core.Migrations.Schema.{Operation, Server, Table, Index, Column, run}
use argus_core.Migrations.Initial
use argus_core.Migrations.DuplicateOf
use argus_core.Migrations.Clusters

-- The variables and functions of a revision file.
pub record Revision : Type 0 where
  pub revision : Text
  pub down_revision : Option Text
  pub upgrade : List Operation
  pub downgrade : List Operation

abbrev pub initial : Revision
initial = record {
  revision = codes "0001_initial";
  down_revision = none;
  upgrade = Initial.upgrade;
  downgrade = Initial.downgrade;
}

abbrev pub duplicate_of : Revision
duplicate_of = record {
  revision = codes "0002_duplicate_of";
  down_revision = some (codes "0001_initial");
  upgrade = DuplicateOf.upgrade;
  downgrade = DuplicateOf.downgrade;
}

abbrev pub form4_clusters : Revision
form4_clusters = record {
  revision = codes "0003_form4_clusters";
  down_revision = some (codes "0002_duplicate_of");
  upgrade = Clusters.upgrade;
  downgrade = Clusters.downgrade;
}

-- `alembic upgrade head` along a chain of revisions, and `alembic downgrade` back along it.
unfoldable pub upgrades : List Revision → List Operation
upgrades [] = []
upgrades (r ∷ rs) = r.upgrade ++ upgrades rs

unfoldable pub downgrades : List Revision → List Operation
downgrades [] = []
downgrades (r ∷ rs) = downgrades rs ++ r.downgrade

abbrev pub history : List Revision
history = initial ∷ duplicate_of ∷ form4_clusters ∷ []

pub upgrades_split :
    (k : ℕ) (rs : List Revision) → upgrades rs ≡ upgrades (take k rs) ++ upgrades (drop k rs)
unfolding upgrades
upgrades_split zero rs = refl
upgrades_split (suc k) [] = refl
upgrades_split (suc k) (r ∷ rs) =
    rw (upgrades_split k rs, append_assoc r.upgrade (upgrades (take k rs)) (upgrades (drop k rs)))

module _ (server : Server) where
  -- A script in two parts.
  run-append :
      (xs ys : List Operation) (s : server.Schema)
      → run server (xs ++ ys) s ≡ elim (run server xs s) [ none ↦ none | some r ↦ run server ys r ]
  unfolding run
  run-append [] ys s = refl
  run-append (x ∷ xs) ys s = elim (Option-cases (server.execute x s)) [
    | inl e ↦ rw e
    | inr (r, e) ↦ rw (e, run-append xs ys r)
  ]

  -- A script that ends did its first part, and then the rest.
  pub run_split :
      (xs ys : List Operation) (s r : server.Schema)
      → run server (xs ++ ys) s ≡ some r
      → (m : server.Schema) × (run server xs s ≡ some m) × (run server ys m ≡ some r)
  run_split xs ys s r e = elim (Option-cases (run server xs s)) [
    | inl stopped ↦ absurd (ground (arith, run-append xs ys s))
    | inr (m, first) ↦ (m, first, ground (arith, run-append xs ys s))
  ]

  -- The script `down` leads back from where the script `up` leads.
  abbrev pub Undoes : List Operation → List Operation → Type 0
  Undoes down up = (s r : server.Schema) → run server up s ≡ some r → run server down r ≡ some s

  pub Undoes-append :
      (up down more back : List Operation)
      → Undoes down up
      → Undoes back more
      → Undoes (back ++ down) (up ++ more)
  Undoes-append up down more back h k s r e =
      let (m, first, second) = run_split up more s r e in
      let there = k m r second in let rest = h s m first in ground (arith, run-append back down r)

  -- The run of one operation.
  run_one : (o : Operation) (s : server.Schema) → run server (o ∷ []) s ≡ server.execute o s
  unfolding run
  run_one o s = ground arith

  pub run_after :
      (o : Operation) (os : List Operation) (s r : server.Schema)
      → server.execute o s ≡ some r
      → run server (o ∷ os) s ≡ run server os r
  unfolding run
  run_after o os s r e = ground arith

  Undoes-one :
      (o back : Operation)
      → ((s r : server.Schema) → server.execute o s ≡ some r → server.execute back r ≡ some s)
      → Undoes (back ∷ []) (o ∷ [])
  Undoes-one o back h s r e = run_one back r ∙ h s r (sym (run_one o s) ∙ e)

  pub created_table :
      (t : Table) → Undoes (Operation.drop_table t.name ∷ []) (Operation.create_table t ∷ [])
  created_table t = Undoes-one _ _ (server.drop_created_table t)

  pub created_index :
      (i : Index)
      → Undoes (Operation.drop_index i.name i.table_name ∷ []) (Operation.create_index i ∷ [])
  created_index i = Undoes-one _ _ (server.drop_created_index i)

  pub added_column :
      (t : Text) (c : Column)
      → Undoes (Operation.drop_column t c.name ∷ []) (Operation.add_column t c ∷ [])
  added_column t c = Undoes-one _ _ (server.drop_added_column t c)

  -- A table is dropped with the index that was put on it.
  pub with_index :
      (i : Index) (up : List Operation)
      → Undoes (Operation.drop_table i.table_name ∷ []) up
      → Undoes (Operation.drop_table i.table_name ∷ []) (up ++ Operation.create_index i ∷ [])
  with_index i up h s r e =
      let (m, first, made) = run_split up (Operation.create_index i ∷ []) s r e in
      run_one _ r
      ∙ server.drop_table_with_index i m r (sym (run_one _ m) ∙ made)
      ∙ sym (run_one _ m)
      ∙ h s m first

  -- Each revision of a chain is undone by its own downgrade, so the chain is by its downgrades.
  abbrev pub Undoable : List Revision → Type 0
  Undoable [] = Unit
  Undoable (r ∷ rs) = Undoes r.downgrade r.upgrade × Undoable rs

  pub Undoable-drop : (k : ℕ) (rs : List Revision) → Undoable rs → Undoable (drop k rs)
  Undoable-drop zero rs h = h
  Undoable-drop (suc k) [] h = tt
  Undoable-drop (suc k) (r ∷ rs) h = Undoable-drop k rs h.1

  pub Undoes-chain : (rs : List Revision) → Undoable rs → Undoes (downgrades rs) (upgrades rs)
  unfolding upgrades downgrades run
  Undoes-chain [] h = λ s r e. sym e
  Undoes-chain (r ∷ rs) h =
      Undoes-append r.upgrade r.downgrade (upgrades rs) (downgrades rs) h.0 (Undoes-chain rs h.1)

-- ===== src/Migrations/Reversal.antt =====
-- The downgrades of src/alembic/versions, each against its upgrade.
use argus_core.Common.{ℕ, suc, drop, take, ◌≡◌, sym, ◌∙◌, ap, List, [], ◌∷◌, ◌++◌, some}
use argus_core.Common.Text.{codes}
use argus_core.Migrations.Schema.{Operation, Server, run}
use argus_core.Migrations.Initial
use argus_core.Migrations.DuplicateOf
use argus_core.Migrations.Clusters
use argus_core.Migrations.Paths.{
  history, initial, duplicate_of, form4_clusters, upgrades, downgrades, upgrades_split, run_after,
  run_split, Undoes, Undoes-append, Undoes-chain, Undoable, Undoable-drop, created_table,
  created_index, added_column, with_index,
}

module _ (server : Server) where
  duplicate_of_undone : Undoes server DuplicateOf.downgrade DuplicateOf.upgrade
  unfolding DuplicateOf.upgrade DuplicateOf.downgrade
  duplicate_of_undone = added_column server (codes "raw_events") DuplicateOf.duplicate_of

  clusters_undone : Undoes server Clusters.downgrade Clusters.upgrade
  unfolding Clusters.upgrade Clusters.downgrade
  clusters_undone =
      Undoes-append server _ _ _ _ (created_table server Clusters.form4_clusters)
        (created_index server Clusters.idx_ticker_created)

  -- What the first revision does after the extension.
  initial_tables : List Operation
  initial_tables =
      (Operation.create_table Initial.raw_events
        ∷ Operation.create_index Initial.idx_events_status
        ∷ Operation.create_index Initial.idx_events_score
        ∷ Operation.create_index Initial.idx_events_hash
        ∷ [])
      ++ ((Operation.create_table Initial.llm_calls
            ∷ Operation.create_index Initial.idx_llm_event
            ∷ [])
          ++ (Operation.create_table Initial.notifications
              ∷ Operation.create_table Initial.polling_state
              ∷ []))

  events_undone :
      Undoes server
        (Operation.drop_index (codes "idx_events_hash") (codes "raw_events")
          ∷ Operation.drop_index (codes "idx_events_score") (codes "raw_events")
          ∷ Operation.drop_index (codes "idx_events_status") (codes "raw_events")
          ∷ Operation.drop_table (codes "raw_events")
          ∷ [])
        (Operation.create_table Initial.raw_events
          ∷ Operation.create_index Initial.idx_events_status
          ∷ Operation.create_index Initial.idx_events_score
          ∷ Operation.create_index Initial.idx_events_hash
          ∷ [])
  events_undone =
      Undoes-append server (_ ∷ []) (_ ∷ []) _ (_ ∷ _ ∷ _ ∷ [])
        (created_table server Initial.raw_events)
        (Undoes-append server (_ ∷ []) (_ ∷ []) _ (_ ∷ _ ∷ [])
          (created_index server Initial.idx_events_status)
          (Undoes-append server (_ ∷ []) (_ ∷ []) _ (_ ∷ [])
            (created_index server Initial.idx_events_score)
            (created_index server Initial.idx_events_hash)))

  calls_undone :
      Undoes server (Operation.drop_table (codes "llm_calls") ∷ []) (
        Operation.create_table Initial.llm_calls
        ∷ Operation.create_index Initial.idx_llm_event
        ∷ [])
  calls_undone = with_index server Initial.idx_llm_event _ (created_table server Initial.llm_calls)

  initial_undone : Undoes server Initial.downgrade initial_tables
  unfolding Initial.downgrade initial_tables
  initial_undone = Undoes-append server _ (_ ∷ _ ∷ _ ∷ _ ∷ []) _ (_ ∷ _ ∷ _ ∷ []) events_undone (
      Undoes-append server _ (_ ∷ []) _ (_ ∷ _ ∷ []) calls_undone (
        Undoes-append server (_ ∷ []) (_ ∷ []) _ (_ ∷ [])
          (created_table server Initial.notifications)
          (created_table server Initial.polling_state)))

  later_undone : Undoable server (duplicate_of ∷ form4_clusters ∷ [])
  later_undone = (duplicate_of_undone, (clusters_undone, tt))

  after_extension :
      (rest : List Operation) (s base top : server.Schema)
      → server.execute (Operation.create_extension (codes "pgcrypto")) s ≡ some base
      → run server (Initial.upgrade ++ rest) s ≡ some top
      → run server (initial_tables ++ rest) base ≡ some top
  unfolding Initial.upgrade initial_tables
  after_extension rest s base top made e =
      sym (run_after server (Operation.create_extension (codes "pgcrypto")) _ s base made) ∙ e

  -- On a database server that undoes the creation of a table, index or column by dropping it, and
  -- drops the indexes of a table with the table: if the extension pgcrypto can be created and the
  -- upgrades of all three revisions run through, then the downgrades of all three run through and
  -- lead back to the schema that had just the extension more. The downgrades from the head to any
  -- revision lead back to the schema that the upgrades up to that revision led to.
  pub downgrade-upgrade :
      (s base top : server.Schema)
      → server.execute (Operation.create_extension (codes "pgcrypto")) s ≡ some base
      → run server (upgrades history) s ≡ some top
      → (run server (downgrades history) top ≡ some base)
        × ((k : ℕ)
            → (mid : server.Schema) × (run server (upgrades (take (suc k) history)) s ≡ some mid)
              × (run server (downgrades (drop (suc k) history)) top ≡ some mid))
  unfolding upgrades downgrades
  downgrade-upgrade s base top made e = (
    Undoes-chain server
        (record initial { upgrade = initial_tables } ∷ duplicate_of ∷ form4_clusters ∷ [])
        (initial_undone, later_undone) base top
        (after_extension (upgrades (duplicate_of ∷ form4_clusters ∷ [])) s base top made e),
    λ k.
        let (mid, to, on) =
          run_split server (upgrades (take (suc k) history)) (upgrades (drop (suc k) history)) s top
            (ap (λ x. run server x s) (sym (upgrades_split (suc k) history)) ∙ e) in
        (
          mid,
          to,
          Undoes-chain server (drop k (duplicate_of ∷ form4_clusters ∷ []))
              (Undoable-drop server k (duplicate_of ∷ form4_clusters ∷ []) later_undone) mid top on,
        ),
  )

-- ===== src/Notifier/Form4Cluster/Alerts.antt =====
-- A run of the cluster job of src/argus/notifier/form4_cluster.py commits as a whole or not at all.
use argus_core.Common.{ℕ, ◌≡◌, refl, true, false, ◌⊎◌, inl, inr, Bool-cases}
use argus_core.Store.{Db}
use argus_core.Notifier.Form4Cluster.{Surroundings, scan, run_once}

module _ {W : Type 0} (env : Surroundings W) (window_h min_filings : ℕ) (db : Db) (w : W) where
  -- A run of the cluster job either returns 0 and leaves the database as it was, and the commit
  -- failed, or returns the number of the alerts of its scan and changes the table of clusters
  -- alone, and the commit succeeded.
  pub run_once_atomic :
      let (n, db', _) = run_once env window_h min_filings db w in
      let (now, w') = env.now w in
      let s = scan env window_h min_filings now db w' in
      (((env.commit s.world).0 ≡ false) × (n ≡ 0) × (db' ≡ db))
      ⊎ (((env.commit s.world).0 ≡ true)
          × (n ≡ s.sent)
          × (db' ≡ record db { form4_clusters = s.clusters }))
  unfolding run_once
  run_once_atomic =
      let (now, w') = env.now w in
      let s = scan env window_h min_filings now db w' in
      elim (Bool-cases (env.commit s.world).0) [
        | inl committed ↦ inr (committed, rw committed refl, rw committed refl)
        | inr lost ↦ inl (lost, rw lost refl, rw lost refl)
      ]

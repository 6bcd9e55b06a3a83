-- ===== src/Notifier/Form4Cluster/Windows.antt =====
-- The alerts of src/argus/notifier/form4_cluster.py for one ticker, over whole runs of the job.
use mathlib.Core.Path.{subst}
use argus_core.Common.{
  ℕ, ◌-◌, ◌≤◌, ◌<◌, ◌≡◌, refl, sym, Bool, true, false, List, [], ◌∷◌, Option, none, some, All,
  All-map, All-append, for_each_inv,
}
use argus_core.Common.Text.{Text}
use argus_core.Models.{RawEvent, Form4Cluster, hours}
use argus_core.Store.{Db}
use argus_core.Processor.Cluster.{find_form4_clusters}
use argus_core.Notifier.Summaries.{build_cluster_embed}
use argus_core.Notifier.Form4Cluster.{
  is_open, find_open_cluster, JobState, Surroundings, refreshed, add_cluster, settle, visit,
  process_candidate, scan, finish, run_once,
}
use argus_core.Notifier.Form4Cluster.Spacing.{
  Place, places, Spaced, DistinctIds, Ids, first-none, found_alone, save-places, All-to_places,
  places-append, Spaced-append, DistinctIds-append, closed_before,
}

module _ {W : Type 0} (env : Surroundings W) (window_h min_filings : ℕ) (ids : Ids env) where
  -- The table of clusters in a state of the world: its ids were given out, none twice, and the rows of
  -- a ticker are more than a window apart.
  pub record Alerted (w : W) (ps : List Place) : Type 0 where
    pub issued : All (λ p. ids.Issued w p.id) ps
    pub distinct : DistinctIds ps
    pub spaced : Spaced window_h ps

  -- Ids that were given out stay so.
  abbrev Later : W → W → Type 0
  Later v w = (i : ℕ) → ids.Issued v i → ids.Issued w i

  Alerted-Later : (v w : W) (ps : List Place) → Later v w → Alerted v ps → Alerted w ps
  Alerted-Later v w ps l a = record {
    issued = All-map (λ p h. l p.id h) ps a.issued;
    distinct = a.distinct;
    spaced = a.spaced;
  }

  module _ (now : ℕ) (ticker : Text) (members : List RawEvent) where
    add-Alerted :
        (s : JobState W)
        → now ≤ (env.now (env.fresh s.world).1).0
        → All (λ c. is_open now window_h ticker c ≡ false) s.clusters
        → Alerted s.world (places s.clusters)
        → let after = add_cluster env window_h min_filings now ticker members s in
          Alerted after.world (places after.clusters)
    unfolding add_cluster
    add-Alerted s clock closed a =
        let (id, w) = env.fresh s.world in
        let (created, w') = env.now w in
        let p : Place = record { id = id; ticker = ticker; created_at = created } in
        rw (places-append s.clusters) (record {
          issued =
              All-append (λ q. ids.Issued w' q.id) (places s.clusters) (p ∷ [])
                (All-map (λ q h. ids.kept_by_now w q.id (ids.kept_by_fresh s.world q.id h))
                  (places s.clusters) a.issued)
                (ids.kept_by_now w id (ids.fresh_issued s.world), tt);
          distinct = DistinctIds-append (places s.clusters) p a.distinct (
              All-map
                (λ q h same.
                  ids.fresh_unused s.world (subst (λ i. ids.Issued s.world i) (sym same) h))
                (places s.clusters) a.issued);
          spaced = Spaced-append window_h (places s.clusters) p a.spaced (
              All-to_places (λ q. ticker ≡ q.ticker → q.created_at < created - hours window_h)
                s.clusters
                (All-map (λ c shut. closed_before now window_h ticker c created clock shut)
                  s.clusters closed));
        })

    add-Later :
        (s : JobState W)
        → Later s.world (add_cluster env window_h min_filings now ticker members s).world
    unfolding add_cluster
    add-Later s i h = ids.kept_by_now (env.fresh s.world).1 i (ids.kept_by_fresh s.world i h)

  -- The table is in order, and no id that was given out at `w` is forgotten.
  abbrev Since : W → JobState W → Type 0
  Since w s = Alerted s.world (places s.clusters) × Later w s.world

  module _ (start : W) (now : ℕ) (ticker : Text) (members : List RawEvent) where
    settle-Since :
        (ok : Bool) (s : JobState W)
        → now ≤ (env.now (env.fresh s.world).1).0
        → All (λ c. is_open now window_h ticker c ≡ false) s.clusters
        → Since start s
        → Since start (settle env window_h min_filings ok now ticker members s)
    unfolding settle
    settle-Since true s clock closed (a, l) = (
      add-Alerted now ticker members s clock closed a,
      λ i h. add-Later now ticker members s i (l i h),
    )
    settle-Since false s clock closed h = h

    visit-Since :
        (o : Option Form4Cluster) (s : JobState W)
        → find_open_cluster now window_h ticker s.clusters ≡ o
        → ((w : W) → now ≤ (env.now w).0)
        → Since start s
        → Since start (visit env window_h min_filings o now ticker members s)
    unfolding visit refreshed find_open_cluster
    visit-Since (some c) s e clock (a, l) = (
      rw
          (save-places (refreshed env window_h min_filings now members c) s.clusters
            (found_alone (is_open now window_h ticker) s.clusters c a.distinct e))
          a,
      l,
    )
    visit-Since none s e clock (a, l) =
        let embeds = build_cluster_embed env.fmt env.upper ticker members ∷ [] in
        let (ok, w) = env.discord.send embeds s.world in
        let sent : Later s.world w = λ i h. ids.kept_by_send s.world i embeds h in
        settle-Since ok (record s { world = w }) (clock _)
          (first-none (is_open now window_h ticker) s.clusters e)
          (Alerted-Later s.world w (places s.clusters) sent a, λ i h. sent i (l i h))

  scan-Since :
      (now : ℕ) (db : Db) (w : W)
      → ((v : W) → now ≤ (env.now v).0)
      → Alerted w (places db.form4_clusters)
      → Since w (scan env window_h min_filings now db w)
  unfolding scan process_candidate
  scan-Since now db w clock a =
      for_each_inv (λ _ s. Since w s) (process_candidate env window_h min_filings now)
        (λ (ticker, members) _ s h.
          visit-Since w now ticker members (find_open_cluster now window_h ticker s.clusters) s refl
            clock h)
        (find_form4_clusters env.ahead (now - hours window_h) min_filings db.raw_events)
        (record { clusters = db.form4_clusters; world = w; sent = 0 }) (a, λ i h. h)

  finish-Alerted :
      (committed : Bool) (start : W) (s : JobState W) (db : Db) (w : W)
      → Later s.world w
      → Since start s
      → Alerted start (places db.form4_clusters)
      → let (_, db', w') = finish env window_h min_filings committed s db w in
        Alerted w' (places db'.form4_clusters)
  unfolding finish
  finish-Alerted true start s db w l (a, _) before = Alerted-Later s.world w (places s.clusters) l a
  finish-Alerted false start s db w l (_, k) before =
      Alerted-Later start w (places db.form4_clusters) (λ i h. l i (k i h)) before

  -- If the ids that the database gives out are fresh, the clock shows no time before the start of
  -- the run, no two rows of form4_clusters have the same id, and each row is older by more than
  -- the window than every later row of its ticker, then all this also holds after a run of the
  -- cluster job, whatever Discord answers and whether the commit succeeds or is rolled back.
  pub run_once-Alerted :
      (db : Db) (w : W)
      → ((v : W) → (env.now w).0 ≤ (env.now v).0)
      → Alerted w (places db.form4_clusters)
      → let (_, db', w') = run_once env window_h min_filings db w in
        Alerted w' (places db'.form4_clusters)
  unfolding run_once
  run_once-Alerted db w clock a =
      let (now, start) = env.now w in
      let before = Alerted-Later w start (places db.form4_clusters) (ids.kept_by_now w) a in
      let s = scan env window_h min_filings now db start in
      finish-Alerted (env.commit s.world).0 start s db (env.commit s.world).1
        (ids.kept_by_commit s.world) (scan-Since now db start clock before) before

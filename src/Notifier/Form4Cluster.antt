-- ===== src/Notifier/Form4Cluster.antt =====
-- src/argus/notifier/form4_cluster.py: the hourly job that alerts on clusters of Form 4 filings.
pub mod Alerts
pub mod Spacing
pub mod Windows
use argus_core.Common.{
  ℕ, ◌+◌, ◌-◌, ◌≤◌, ◌≡◌, refl, Bool, true, false, ◌&&◌, List, [], ◌∷◌, ◌++◌, map, Option, none,
  some, arith, leb, ◌==◌, for_each, if◌then◌else◌,
}
use argus_core.Common.Text.{Text, text_eq}
use argus_core.Config.{Dict}
use argus_core.Models.{RawEvent, Form4Cluster, hours}
use argus_core.Store.{Db}
use argus_core.Notifier.Embeds.{FloatFormat, Embed}
use argus_core.Notifier.Summaries.{build_cluster_embed}
use argus_core.Notifier.Worker.{Discord}
use argus_core.Processor.Cluster.{find_form4_clusters}

-- The WHERE clause of `_find_open_cluster`.
pub is_open : ℕ → ℕ → Text → Form4Cluster → Bool
is_open now window_h ticker c = text_eq c.ticker ticker && leb (now - hours window_h) c.created_at

pub first : (Form4Cluster → Bool) → List Form4Cluster → Option Form4Cluster
first p [] = none
first p (c ∷ cs) = if p c then some c else first p cs

-- `_find_open_cluster`.
unfoldable pub find_open_cluster : ℕ → ℕ → Text → List Form4Cluster → Option Form4Cluster
unfolding is_open first
find_open_cluster now window_h ticker = first (is_open now window_h ticker)

-- The flush of a changed cluster row.
pub save_cluster : Form4Cluster → List Form4Cluster → List Form4Cluster
save_cluster c [] = []
save_cluster c (x ∷ xs) = if x.id == c.id then c ∷ xs else x ∷ save_cluster c xs

pub record JobState (W : Type 0) : Type 0 where
  pub clusters : List Form4Cluster
  pub world : W
  pub sent : ℕ

-- What the job asks of its surroundings: the clock, fresh ids, the webhook, the commit, the
-- collation of the database and the formats of the embed.
pub record Surroundings (W : Type 0) : Type 0 where
  pub now : W → ℕ × W
  pub fresh : W → ℕ × W
  pub discord : Discord W
  pub commit : W → Bool × W
  pub ahead : Text → Text → Bool
  pub fmt : FloatFormat
  pub upper : Text → Text

module _ {W : Type 0} (env : Surroundings W) (window_h min_filings : ℕ) where
  refreshed : ℕ → List RawEvent → Form4Cluster → Form4Cluster
  refreshed now members c = record c {
    member_event_ids = map (λ m. m.id) members;
    window_end = now;
  }

  -- `session.add(Form4Cluster(...))` after a send that was accepted.
  add_cluster : ℕ → Text → List RawEvent → JobState W → JobState W
  add_cluster now ticker members s =
      let (id, w) = env.fresh s.world in
      let (created, w') = env.now w in
      record {
        clusters =
            s.clusters
            ++ record {
              id = id;
              ticker = ticker;
              member_event_ids = map (λ m. m.id) members;
              window_start = now - hours window_h;
              window_end = now;
              alerted_at = some now;
              created_at = created;
            }
              ∷ [];
        world = w';
        sent = s.sent + 1;
      }

  settle : Bool → ℕ → Text → List RawEvent → JobState W → JobState W
  unfolding add_cluster
  settle true now ticker members s = add_cluster now ticker members s
  settle false now ticker members s = s

  visit : Option Form4Cluster → ℕ → Text → List RawEvent → JobState W → JobState W
  unfolding settle refreshed
  visit (some open_cluster) now ticker members s = record s {
    clusters = save_cluster (refreshed now members open_cluster) s.clusters;
  }
  visit none now ticker members s =
      let (ok, w) =
        env.discord.send (build_cluster_embed env.fmt env.upper ticker members ∷ []) s.world in
      settle ok now ticker members (record s { world = w })

  -- The body of `for ticker, members in candidates`.
  pub process_candidate : ℕ → Text × List RawEvent → JobState W → JobState W
  unfolding visit
  process_candidate now (ticker, members) s =
      visit (find_open_cluster now window_h ticker s.clusters) now ticker members s

  -- The run up to the commit.
  pub scan : ℕ → Db → W → JobState W
  scan now db w =
      for_each (process_candidate now)
        (find_form4_clusters env.ahead (now - hours window_h) min_filings db.raw_events)
        (record { clusters = db.form4_clusters; world = w; sent = 0 })

  finish : Bool → JobState W → Db → W → ℕ × Db × W
  finish true s db w = (s.sent, record db { form4_clusters = s.clusters }, w)
  finish false s db w = (0, db, w)

  -- `Form4ClusterJob.run_once`: a commit that raises is rolled back, and the run returns 0.
  unfoldable pub run_once : Db → W → ℕ × Db × W
  unfolding scan finish
  run_once db w =
      let (now, w') = env.now w in
      let s = scan now db w' in
      let (committed, w'') = env.commit s.world in finish committed s db w''

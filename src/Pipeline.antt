-- ===== src/Pipeline.antt =====
-- The four services on one database (the wiring of src/argus/*/main.py): each run of a job that commits is
-- a step of the database, and a database is reachable if steps lead to it from the empty one.
pub mod Consistency
pub mod Scheduled
pub mod Wiring
pub mod Mains
pub mod Deliveries
pub mod Storing
pub mod Waiting
use argus_core.Common.{ℕ, ◌≡◌, ◌≢◌, Bool, List, Option}
use argus_core.Common.Text.{Text}
use argus_core.Models.{RawEvent}
use argus_core.Store.{Db, empty}
use argus_core.Unicode.{Unicode}
use argus_core.Llm.{LlmProvider}
use argus_core.Processor.Filters.{WatchlistFilter}
use argus_core.Processor.Worker.Service.{processor_run}
use argus_core.Notifier.Embeds.{FloatFormat}
use argus_core.Notifier.Worker.{Discord}
use argus_core.Notifier.Worker
use argus_core.Notifier.Digest as Daily
use argus_core.Notifier.Form4Cluster.{Surroundings}
use argus_core.Notifier.Form4Cluster as Hourly
use argus_core.Poll.{Sources}
use argus_core.Rss.Parser.{Parsed}
use argus_core.Rss.Pipeline.{RssPipeline}
use argus_core.Rss.Pipeline as Feeds
use argus_core.Sec.Edgar.{Numerals}
use argus_core.Sec.Pipeline.{Form4Filter, SecEnv}
use argus_core.Sec.Pipeline as Filings

-- The settings, the watchlist and the objects that the main functions put together.
pub record Deployment (W : Type 0) : Type 0 where
  pub unicode : Unicode
  pub now : W → ℕ × W
  pub llm : LlmProvider W
  pub watchlist : WatchlistFilter
  pub discord : Discord W
  pub fmt : FloatFormat
  pub min_relevance_score : ℕ
  pub instant_score : ℕ
  pub surroundings : Surroundings W
  pub window_h : ℕ
  pub min_filings : ℕ
  pub sources : Sources W
  pub sha256 : Text → Text
  pub numerals : Numerals
  pub form4_filter : Form4Filter
  pub sec : SecEnv W

-- A run of one of the jobs that ended with a commit. Other runs lock rows, the batch has any size,
-- and the world may be in any state.
pub data Step {W : Type 0} (d : Deployment W) (db db' : Db) : Type 0 where
  process :
      (size : ℕ) (locked : ℕ → Bool) (w : W)
      → db' ≡ (processor_run d.unicode d.now d.watchlist d.llm size locked db w).db
      → Step d db db'
  notify :
      (size : ℕ) (locked : ℕ → Bool) (w : W)
      → db' ≡ (Worker.run_once d.fmt d.now d.discord size d.instant_score locked db w).db
      → Step d db db'
  digest :
      (locked : ℕ → Bool) (w : W)
      → db' ≡ (Daily.run_once d.now d.discord d.min_relevance_score d.instant_score locked db w).db
      → Step d db db'
  alert :
      (w : W)
      → db' ≡ (Hourly.run_once d.surroundings d.window_h d.min_filings db w).1
      → Step d db db'
  read_feed :
      (p : RssPipeline) (fetched : Option Parsed) (n : ℕ) (w w' : W)
      → Feeds.run d.unicode d.sha256 p d.sources fetched db w ≡ Feeds.returned n db' w'
      → Step d db db'
  read_filings :
      (urls : Option (List Text)) (since : Text) (n : ℕ) (w w' : W)
      → Filings.run d.unicode d.numerals d.form4_filter d.sec urls since db w
        ≡ Filings.returned n db' w'
      → Step d db db'

pub data Reachable {W : Type 0} (d : Deployment W) : Db → Type 0 where
  start : Reachable d empty
  next : (db db' : Db) → Reachable d db → Step d db db' → Reachable d db'

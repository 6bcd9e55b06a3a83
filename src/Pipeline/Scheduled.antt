-- ===== src/Pipeline/Scheduled.antt =====
-- The jobs that src/argus/rss_poller/main.py and src/argus/sec_poller/main.py schedule: a run of every feed,
-- and a run over the filings, with their exceptions caught.
use argus_core.Common.{All, ◌≡◌, refl, Bool, List, [], ◌∷◌, Option, none, some}
use argus_core.Common.Text.{Text}
use argus_core.Store.{Db}
use argus_core.Health.{LastRunTracker, Outcome, result, error, tracked, mark, healthz}
use argus_core.Rss.Feeds.{Feed, Named}
use argus_core.Rss.Parser.{Parsed}
use argus_core.Rss.Pipeline.{RssPipeline}
use argus_core.Rss.Pipeline as Feeds
use argus_core.Sec.Pipeline as Filings
use argus_core.Pipeline.{Deployment, read_feed, read_filings, Reachable, next}

-- `feed["name"]` in a log line: a feed without a name is a KeyError.
logged : {S : Type 0} → Option Text → S → Outcome Unit × S
logged none s = (error, s)
logged (some n) s = (result tt, s)

module _ {W : Type 0} (d : Deployment W) (fetch : RssPipeline → W → Option Parsed × W)
    (after_error : W → W) where
  -- `try: await p.run() except Exception: log.exception(...)`. The run logs the name after its commit,
  -- unless the fetch failed, and the handler logs it again. The session of a run that raised is rolled back.
  caught :
      {p : RssPipeline}
      → Option Text
      → Option Parsed
      → Feeds.Ended d.unicode d.sha256 p W
      → Db
      → W
      → Outcome Unit × (Db × W)
  unfolding logged
  caught name none (Feeds.returned n db' w') db w = (result tt, (db', w'))
  caught name (some _) (Feeds.returned n db' w') db w = logged name (db', w')
  caught name _ Feeds.raised db w = logged name (db, after_error w)

  unfoldable pub run_feed : Feed → Db × W → Outcome Unit × (Db × W)
  unfolding caught
  run_feed f (db, w) =
      let (fetched, w') = fetch f.pipeline w in
      caught f.name fetched (Feeds.run d.unicode d.sha256 f.pipeline d.sources fetched db w') db w'

  -- `run_all`.
  unfoldable pub run_all : List Feed → Db × W → Outcome Unit × (Db × W)
  unfolding run_feed
  run_all [] s = (result tt, s)
  run_all (f ∷ fs) s =
      let (o, s') = run_feed f s in elim o [ error ↦ (error, s') | result _ ↦ run_all fs s' ]

  Fine : Outcome Unit × (Db × W) → Type 0
  Fine (o, s) = (o ≡ result tt) × Reachable d s.0

  logged-Fine : (f : Feed) (s : Db × W) → Named f → Reachable d s.0 → Fine (logged f.name s)
  unfolding logged Fine
  logged-Fine f s (n, named) r = rw named (refl, r)

  caught-Fine :
      (f : Feed) (fetched : Option Parsed) (db : Db) (w : W)
      (e : Feeds.Ended d.unicode d.sha256 f.pipeline W)
      → Feeds.run d.unicode d.sha256 f.pipeline d.sources fetched db w ≡ e
      → Named f
      → Reachable d db
      → Fine (caught f.name fetched e db w)
  unfolding caught Fine
  caught-Fine f none db w (Feeds.returned n db' w') h named r =
      (refl, next db db' r (read_feed f.pipeline none n w w' h))
  caught-Fine f (some parsed) db w (Feeds.returned n db' w') h named r =
      logged-Fine f (db', w') named (next db db' r (read_feed f.pipeline (some parsed) n w w' h))
  caught-Fine f none db w Feeds.raised h named r = logged-Fine f (db, after_error w) named r
  caught-Fine f (some parsed) db w Feeds.raised h named r =
      logged-Fine f (db, after_error w) named r

  run_all-Fine :
      (fs : List Feed) (s : Db × W) → All Named fs → Reachable d s.0 → Fine (run_all fs s)
  unfolding run_all Fine
  run_all-Fine [] s named r = (refl, r)
  run_all-Fine (f ∷ fs) (db, w) named r =
      let (fetched, w') = fetch f.pipeline w in
      let (quiet, r') = caught-Fine f fetched db w' _ refl named.0 r in
      rw (quiet, run_all) (run_all-Fine fs _ named.1 r')

module _ {W : Type 0} (d : Deployment W) (two_days_ago : W → Text × W)
    (search : Text → W → Option (List Text) × W) (after_error : W → W) where
  caught_run : Filings.Ended d.unicode d.numerals d.form4_filter d.sec → Db → W → Db × W
  caught_run (Filings.returned n db' w') db w = (db', w')
  caught_run Filings.raised db w = (db, after_error w)

  -- `run_once` of the SEC poller.
  unfoldable pub run_filings : Db × W → Outcome Unit × (Db × W)
  unfolding caught_run
  run_filings (db, w) =
      let (since, w') = two_days_ago w in
      let (urls, w'') = search since w' in
      (
        result tt,
        caught_run (Filings.run d.unicode d.numerals d.form4_filter d.sec urls since db w'') db w'',
      )

  caught_run-Reachable :
      (urls : Option (List Text)) (since : Text) (db : Db) (w : W)
      (e : Filings.Ended d.unicode d.numerals d.form4_filter d.sec)
      → Filings.run d.unicode d.numerals d.form4_filter d.sec urls since db w ≡ e
      → Reachable d db
      → Reachable d (caught_run e db w).0
  unfolding caught_run
  caught_run-Reachable urls since db w (Filings.returned n db' w') h r =
      next db db' r (read_filings urls since n w w' h)
  caught_run-Reachable urls since db w Filings.raised h r = r

  run_filings-Reachable : (s : Db × W) → Reachable d s.0 → Reachable d (run_filings s).1.0
  unfolding run_filings
  run_filings-Reachable (db, w) r =
      let (since, w') = two_days_ago w in
      let (urls, w'') = search since w' in caught_run-Reachable urls since db w'' _ refl r

-- The job that a poller schedules.
unfoldable pub poll_job :
    {W : Type 0} (isoformat : W → Text × W)
    → (Db × W → Outcome Unit × (Db × W))
    → LastRunTracker
    → Db × W
    → Outcome Unit × LastRunTracker × (Db × W)
unfolding tracked
poll_job isoformat run = tracked (λ (db, w). let (now, w') = isoformat w in (now, (db, w'))) run

-- What a scheduled run of a poller comes to: it ends without an exception, the health endpoint shows
-- the time after it as the last run, and the database is again one that the services lead to.
pub record Polled {W : Type 0} (d : Deployment W) (isoformat : W → Text × W)
    (run : Db × W → Outcome Unit × (Db × W)) (t : LastRunTracker) (s : Db × W) : Type 0 where
  pub quiet : (poll_job isoformat run t s).0 ≡ result tt
  pub shown :
      (db_ping scheduler_running : Bool)
      → (healthz db_ping scheduler_running (poll_job isoformat run t s).1).last_run
        ≡ some (isoformat (run s).1.1).0
  pub reachable : Reachable d (poll_job isoformat run t s).2.0

poll_job-Polled :
    {W : Type 0} (d : Deployment W) (isoformat : W → Text × W)
    (run : Db × W → Outcome Unit × (Db × W)) (t : LastRunTracker) (s : Db × W)
    → (run s).0 ≡ result tt
    → Reachable d (run s).1.0
    → Polled d isoformat run t s
unfolding poll_job healthz mark tracked
poll_job-Polled d isoformat run t s h r = record {
  quiet = rw h refl;
  shown = λ p q. rw h refl;
  reachable = rw h r;
}

-- If every feed of the file has a name, then from a database that the services lead to, the
-- scheduled job of the RSS poller and that of the SEC poller end without an exception, whatever
-- the requests, the searches and the filings do, also if every run fails; the database after them
-- is one that the services lead to; and the health endpoint then shows the time after the job as
-- the time of the last run.
pub poll_jobs-Polled :
    {W : Type 0} (d : Deployment W) (isoformat : W → Text × W)
    (fetch : RssPipeline → W → Option Parsed × W) (two_days_ago : W → Text × W)
    (search : Text → W → Option (List Text) × W) (after_error : W → W) (feeds : List Feed)
    (t : LastRunTracker) (s : Db × W)
    → All Named feeds
    → Reachable d s.0
    → Polled d isoformat (run_all d fetch after_error feeds) t s
      × Polled d isoformat (run_filings d two_days_ago search after_error) t s
unfolding Fine run_filings
poll_jobs-Polled d isoformat fetch two_days_ago search after_error feeds t s named r =
    let (quiet, reached) = run_all-Fine d fetch after_error feeds s named r in
    (
      poll_job-Polled d isoformat (run_all d fetch after_error feeds) t s quiet reached,
      poll_job-Polled d isoformat (run_filings d two_days_ago search after_error) t s refl
          (run_filings-Reachable d two_days_ago search after_error s r),
    )

-- ===== src/Lib.antt =====
-- ArgusCore: a pipeline that turns news feeds and Form 4 filings into Discord alerts. Four
-- services share one Postgres database. Two pollers insert events; the processor takes new
-- events, drops duplicates, and has an LLM score the relevant ones; the notifier sends the best
-- ones at once, the middle ones in a daily digest, and an alert when filings of one ticker pile
-- up.
--
-- The parts, from the root of the repository:
--   * src/argus/common: http.py is Http (with Retry, the loop over attempts) and Http.Clients,
--     config.py is Config and Config.Settings, models.py is Models and Models.Defaults, health.py is
--     Health, db.py is Store.Engine. Store is the database as a session sees it.
--   * src/argus/llm: base.py and the data of prompts.py are Llm; the prompt and the validation
--     are Llm.Prompts; the loop of deepseek.py and gemini.py and `create_provider` are
--     Llm.Providers; the requests and responses of both are Llm.Responses, over Llm.Json.
--   * src/argus/processor: filters.py, classifier.py, dedup.py, worker.py and cluster.py are the
--     modules of those names below Processor. Processor.Worker takes the search for duplicates
--     and the classifier as parameters with the contracts of Processor.Worker.Contract;
--     Processor.Worker.Service puts in the real ones. Processor.Dedup.Matcher is what
--     `titles_similar` uses of difflib.SequenceMatcher.
--   * src/argus/notifier: discord.py is Notifier.Discord (the client), Notifier.Embeds (the
--     alert) and Notifier.Summaries (the digest and the cluster); worker.py, digest.py and
--     form4_cluster.py are Notifier.Worker, Notifier.Digest and Notifier.Form4Cluster. The
--     commits of the first two, which may fail, are Notifier.Commits; Pipeline.Deliveries is the
--     services over time with these commits, and Pipeline.Waiting is an event that waits for the
--     digest meanwhile.
--   * src/argus/rss_poller: parser.py is Rss.Parser, pipeline.py is Rss.Fetch (the request) and
--     Rss.Pipeline, and the feeds of main.py are Rss.Feeds.
--   * src/argus/sec_poller: edgar.py is Sec.Edgar (`parse_form4`), Sec.Search (the URLs in a search
--     result) and Sec.Fetch (its two requests), and pipeline.py is Sec.Pipeline. Poll is the
--     insertion that both pollers share.
--   * The jobs that the main.py files schedule are the steps of Pipeline, on one database. A run
--     is one step, as it is one transaction. Pipeline.Scheduled is the jobs of the two pollers
--     with the exceptions that they catch, Pipeline.Wiring what the main functions take from the
--     settings and the watchlist, and Pipeline.Mains what they call, from the set-up to the
--     clean-up, over Common.Trace (statements that may raise, and `finally`).
--   * alembic: the revisions are Migrations.Initial, Migrations.DuplicateOf and
--     Migrations.Clusters, scripts of the operations of Migrations.Schema; Migrations.Paths is
--     their chain, and env.py is Migrations.Lock. Migrations.Values is the values that the
--     columns take and the row of an event, and Pipeline.Storing takes the rows of the
--     services to them, by the modules called Sizes of the parts.
-- Lifecycle is no file of the repository: it states the life cycle of an event, what a row of each
-- status carries, the ledger of deliveries, the bills (the LLM calls of an event, against its
-- score), and how `duplicate_of` resolves. Common and Unicode hold what the rest shares, and Tests
-- applies the theorems to sample data.
--
-- How the code is read:
--   * A session is explicit state: the tables as lists of rows, and a world of any type, through
--     which the clock, fresh ids, Discord, the LLM and the commit answer. A changed row is
--     written back under its id, as the flush before the next query does. `SELECT ... FOR UPDATE
--     SKIP LOCKED` leaves out the rows that a parameter says are locked. Rows that no ORDER BY
--     sorts come in the order of the table.
--   * A text is the list of its code points. Lower case and the classes of `re` are a parameter
--     (Unicode), as are float formatting, the numerals of int and float, SHA-256, and the
--     collation of the database.
--   * Ids are numbers that are only compared. Times are in microseconds (the delays of Http and
--     Notifier.Discord in milliseconds), money is in millionths of a dollar, the cost of an LLM
--     call in hundredths of one (amounts are not rounded as floats are), and scores, thresholds
--     and windows are natural numbers.
--   * The retry loops run on one round of fuel more than there are attempts, as the last attempt
--     always stops. The matcher runs on one more than the length of the first
--     text, which bounds the depth of its recursion, as each block takes a character of it.
--
-- Not modelled: logging.py, the reading of the environment and of YAML files, the inside of
-- the scheduler and the server, the choice of the event loop in env.py, the closing of HTTP
-- clients, and log lines (but for the name of a feed, whose absence makes the RSS poller's
-- raise).
-- Nothing keeps NUL characters and surrogates out of the texts of the events, which PostgreSQL
-- refuses: Migrations.Values says so, and Pipeline.Storing asks for texts without them.
-- What PostgreSQL makes of a migration is a parameter with laws. A commit that fails is modelled for
-- the jobs of the notifier; that of a poller or of the processor undoes the run and nothing else.
pub mod Common
pub mod Unicode
pub mod Config
pub mod Models
pub mod Store
pub mod Lifecycle
pub mod Retry
pub mod Http
pub mod Health
pub mod Llm
pub mod Processor
pub mod Notifier
pub mod Poll
pub mod Rss
pub mod Sec
pub mod Pipeline
pub mod Migrations
pub mod Tests

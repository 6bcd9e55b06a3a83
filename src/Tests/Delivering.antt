-- ===== src/Tests/Delivering.antt =====
-- The theorem on the deliveries, applied to a world that keeps what Discord accepted, and a first run of the
-- notifier whose commit fails.
use argus_core.Common.{
  ℕ, suc, ◌≡◌, ◌⊎◌, refl, inl, inr, Bool, true, false, List, [], ◌∷◌, some, ◌==◌, not, All,
}
use argus_core.Common.Text.{text_eq}
use argus_core.Store.{Db, empty, find, exists_external}
use argus_core.Unicode.{ascii}
use argus_core.Llm.{LlmProvider, IsProvider}
use argus_core.Notifier.Embeds.{Embed}
use argus_core.Notifier.Worker.{Discord}
use argus_core.Notifier.Commits.{Log, instant_run}
use argus_core.Processor.Filters.{member}
use argus_core.Processor.Worker.Service.{processor_run}
use argus_core.Poll.{for_each_or_raise, offer, insert, add_new, upsert_cursor}
use argus_core.Rss.Parser.{parse_feed, item_of, parse_date}
use argus_core.Rss.Pipeline.{
  run, close, extract_ticker, words, is_candidate, first_listed, is_relevant, draft, ingest,
}
use argus_core.Pipeline.{Deployment, Step, read_feed, process}
use argus_core.Pipeline.Deliveries.{History, Accounted, at_least_once}
use argus_core.Tests.Samples.{
  clock, counter, nobody, watch, llm, llm-IsProvider, plain_format, nobody,
}
use argus_core.Tests.Polling.{no_hash, feed}
use argus_core.Tests.Filing.{edgar}
use argus_core.Tests.Running.{deployment, fetched, read_db}

record Recorded : Type 0 where
  time : ℕ
  accepted : List (List Embed)

abbrev lifted : {A : Type 0} → (ℕ → A × ℕ) → Recorded → A × Recorded
lifted f w = let (a, t) = f w.time in (a, record w { time = t })

abbrev webhook : Discord Recorded
webhook = record {
  send = λ embeds w. (true, record { time = suc w.time; accepted = embeds ∷ w.accepted });
}

abbrev commit : Recorded → Bool × Recorded
commit w = (not (w.time == 8), record w { time = suc w.time })

abbrev recorded_llm : LlmProvider Recorded
recorded_llm = record { classify = λ e w. lifted (llm.classify e) w }

recorded_llm-IsProvider : IsProvider recorded_llm
recorded_llm-IsProvider = record { validated = λ e w r h. llm-IsProvider.validated e w.time r h }

abbrev recording : Deployment Recorded
recording = record {
  unicode = ascii;
  now = λ w. lifted clock w;
  llm = recorded_llm;
  watchlist = watch;
  discord = webhook;
  fmt = plain_format;
  min_relevance_score = 70;
  instant_score = 90;
  surroundings = record {
    now = λ w. lifted clock w;
    fresh = λ w. lifted counter w;
    discord = webhook;
    commit = commit;
    ahead = λ a b. false;
    fmt = plain_format;
    upper = λ t. t;
  };
  window_h = 48;
  min_filings = 2;
  sources = record { now = λ w. lifted clock w; fresh = λ w. lifted counter w };
  sha256 = no_hash;
  numerals = deployment.numerals;
  form4_filter = deployment.form4_filter;
  sec = record {
    sources = record { now = λ w. lifted clock w; fresh = λ w. lifted counter w };
    fetch = λ url w. lifted (edgar.fetch url) w;
    sha256 = edgar.sha256;
    show_price = edgar.show_price;
    grouped = edgar.grouped;
  };
}

-- A message is among those that were accepted.
abbrev Among : List Embed → List (List Embed) → Type 0
Among sent [] = ⊥
Among sent (m ∷ ms) = (sent ≡ m) ⊎ Among sent ms

abbrev log : Log plain_format (λ w. lifted clock w) webhook commit
log = record {
  Accepted = λ w sent. Among sent w.accepted;
  accepted = λ embeds w h. inl refl;
  kept_by_send = λ embeds sent w h. inr h;
  kept_by_now = λ sent w h. h;
  kept_by_commit = λ sent w h. h;
}

abbrev at_first : Recorded
at_first = record { time = 0; accepted = [] }

abbrev after_feed : Recorded
after_feed = record { time = 2; accepted = [] }

read_step : Step recording empty read_db
unfolding run close ingest draft is_relevant extract_ticker words first_listed is_candidate member
    text_eq for_each_or_raise offer add_new insert exists_external find upsert_cursor parse_feed
    item_of parse_date
read_step = read_feed feed (some fetched) 1 at_first after_feed refl

abbrev judged_db : Db
judged_db =
    (processor_run ascii (λ w. lifted clock w) watch recorded_llm 20 nobody read_db after_feed).db

abbrev before_alerts : Db × Recorded
before_alerts = (judged_db, record { time = 5; accepted = [] })

judged : History recording commit log before_alerts
unfolding read_step
judged =
    History.other read_db judged_db after_feed before_alerts.1 (process 20 nobody after_feed refl)
      tt (λ sent h. h)
      (History.other empty read_db at_first after_feed read_step tt (λ sent h. h)
        (History.begin at_first))

-- A run of the notifier, at whose commit the connection is lost, and the next one.
abbrev alerts : Db × Recorded → Db × Recorded
alerts (db, w) = instant_run plain_format (λ v. lifted clock v) webhook commit 10 90 nobody db w

at_least_once_example :
    let (db, w) = alerts (alerts before_alerts) in
    All (Accounted recording commit log w) db.raw_events
at_least_once_example =
    at_least_once recording commit log recorded_llm-IsProvider (alerts (alerts before_alerts)) (
      History.instant (alerts before_alerts) 10 nobody
        (History.instant before_alerts 10 nobody judged))

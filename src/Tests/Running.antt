-- ===== src/Tests/Running.antt =====
-- The theorems on reachable databases, applied to one that a feed, the processor and the notifier lead
-- to.
use argus_core.Common.{
  ℕ, ◌≤◌, ◌≡◌, refl, ap, false, [], ◌∷◌, Option, some, none, length, arith, All,
}
use argus_core.Common.Text.{Text, codes, text_eq}
use argus_core.Models.{new_event}
use argus_core.Store.{Db, empty, find, exists_external}
use argus_core.Unicode.{ascii}
use argus_core.Processor.Filters.{member}
use argus_core.Processor.Worker.Service.{processor_run}
use argus_core.Notifier.Worker.{run_once}
use argus_core.Poll.{for_each_or_raise, offer, insert, add_new, upsert_cursor}
use argus_core.Rss.Parser.{Parsed, parse_feed, item_of, parse_date}
use argus_core.Rss.Pipeline.{
  run, close, extract_ticker, words, is_candidate, first_listed, is_relevant, draft, ingest,
}
use argus_core.Pipeline.{Deployment, Step, read_feed, process, notify, Reachable, start, next}
use argus_core.Sec.Edgar.{Form4Data, parse_form4, find_text}
use argus_core.Migrations.Typed.{Plain, Typed}
use argus_core.Pipeline.Storing.{ShortInputs, Reachable-Typed}
use argus_core.Pipeline.Consistency.{Consistent, Reachable-Consistent}
use argus_core.Tests.Samples.{
  clock, nobody, sources, watch, llm, llm-IsProvider, plain_format, accepting,
}
use argus_core.Tests.Alerting.{surroundings}
use argus_core.Tests.Polling.{no_hash, feed, read_rows}
use argus_core.Tests.Filing.{filing, thresholds, numerals, edgar}

abbrev pub deployment : Deployment ℕ
deployment = record {
  unicode = ascii;
  now = clock;
  llm = llm;
  watchlist = watch;
  discord = accepting;
  fmt = plain_format;
  min_relevance_score = 70;
  instant_score = 90;
  surroundings = surroundings;
  window_h = 48;
  min_filings = 2;
  sources = sources;
  sha256 = no_hash;
  numerals = numerals;
  form4_filter = thresholds;
  sec = edgar;
}

abbrev pub fetched : Parsed
fetched = record {
  bozo = false;
  entries =
      record {
        title = some (codes "FDA clears PFE drug");
        description = none;
        summary = none;
        link = some (codes "https://example.org/1");
        id = some (codes "g1");
        guid = none;
        published_parsed = none;
        updated_parsed = none;
      }
      ∷ [];
}

abbrev pub read_db : Db
read_db = record empty {
  raw_events = read_rows;
  polling_state = record { source = codes "rss:https://example.org/rss"; cursor = codes "g1" } ∷ [];
}

read_step : Step deployment empty read_db
unfolding run close ingest draft is_relevant extract_ticker words first_listed is_candidate member
    text_eq for_each_or_raise offer add_new insert exists_external find upsert_cursor parse_feed
    item_of parse_date
read_step = read_feed feed (some fetched) 1 0 2 refl

abbrev judged_db : Db
judged_db = (processor_run ascii clock watch llm 20 nobody read_db 2).db

abbrev alerted_db : Db
alerted_db = (run_once plain_format clock accepting 10 90 nobody judged_db 5).db

alerted-Reachable : Reachable deployment alerted_db
alerted-Reachable =
    next judged_db alerted_db
      (next read_db judged_db (next empty read_db start read_step) (process 20 nobody 2 refl))
      (notify 10 nobody 5 refl)

Reachable-Consistent_example : Consistent alerted_db
Reachable-Consistent_example =
    Reachable-Consistent deployment llm-IsProvider alerted_db alerted-Reachable

abbrev ticker_of : Option Form4Data → Text
ticker_of none = []
ticker_of (some f) = f.ticker

symbol_of :
    (f : Form4Data) → parse_form4 ascii numerals (some filing) ≡ some f → length f.ticker ≤ 16
unfolding parse_form4 find_text text_eq
symbol_of f h =
    let ticker : codes "250" ≡ f.ticker = ap (λ o. ticker_of o) h in rw (← ticker) (omega arith)

short_inputs : ShortInputs deployment
short_inputs = record {
  feed_hash = λ t. omega arith;
  filing_hash = λ t. omega arith;
  symbol = λ url w f h. symbol_of f h;
}

read-Plain : All Plain read_rows
unfolding new_event
read-Plain = (
  record {
    source = refl;
    external_id = refl;
    content_hash = refl;
    ticker = (refl, tt);
    title = refl;
    body = refl;
    url = refl;
    error_message = tt;
    sentiment = tt;
    llm_summary = tt;
    poller_meta = λ m h. absurd (cc);
  },
  tt,
)

Reachable-Typed_example : All Typed read_rows
Reachable-Typed_example =
    Reachable-Typed deployment llm-IsProvider short_inputs read_db
      (next empty read_db start read_step) read-Plain

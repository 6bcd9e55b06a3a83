-- ===== src/Tests/Polling.antt =====
-- The theorems on the RSS poller, applied to a feed of one item.
use argus_core.Common.{ℕ, ◌≡◌, refl, List, [], ◌∷◌, some, none}
use argus_core.Common.Text.{Text, codes, text_eq}
use argus_core.Unicode.{ascii}
use argus_core.Models.{RawEvent, new_event}
use argus_core.Store.{find, exists_external}
use argus_core.Poll.{Inbox, for_each_or_raise, offer, insert, add_new}
use argus_core.Processor.Filters.{member}
use argus_core.Rss.Parser.{FeedItem}
use argus_core.Rss.Pipeline.{
  RssPipeline, extract_ticker, words, is_candidate, first_listed, is_relevant, draft, ingest,
}
use argus_core.Rss.Pipeline.Runs.{ingest_again}
use argus_core.Tests.Samples.{sources}

abbrev pub no_hash : Text → Text
no_hash t = []

abbrev pub feed : RssPipeline
feed = record {
  url = codes "https://example.org/rss";
  cursor_key = codes "rss:https://example.org/rss";
  ticker_set = codes "PFE" ∷ [];
  keywords_lower = [];
}

abbrev item : FeedItem
item = record {
  title = codes "FDA clears PFE drug";
  body = [];
  url = codes "https://example.org/1";
  guid = codes "g1";
  published = none;
}

-- What a run over the feed leaves.
abbrev pub read_rows : List RawEvent
read_rows =
    new_event 100 200000000001 (record {
      source = codes "rss";
      external_id = codes "g1";
      content_hash = [];
      ticker = some (codes "PFE");
      title = codes "FDA clears PFE drug";
      body = [];
      url = codes "https://example.org/1";
      poller_meta = none;
    })
    ∷ []

abbrev read_feed : Inbox ℕ
read_feed = record { rows = read_rows; world = 2; inserted = 1 }

feed_ends : ingest ascii no_hash feed sources (item ∷ []) [] 0 ≡ some read_feed
unfolding ingest draft is_relevant extract_ticker words first_listed is_candidate member text_eq
    for_each_or_raise offer add_new insert exists_external find
feed_ends = refl

ingest_again_example :
    ingest ascii no_hash feed sources (item ∷ []) read_rows 50
    ≡ some (record { rows = read_rows; world = 50; inserted = 0 })
ingest_again_example =
    ingest_again ascii no_hash feed sources (item ∷ []) [] 0 read_feed feed_ends 50

-- ===== src/Rss/Pipeline.antt =====
-- src/argus/rss_poller/pipeline.py: fetch a feed, keep the relevant items, insert what is new.
pub mod Runs
pub mod Commits
use argus_core.Common.{
  ℕ, ◌≤◌, ◌≡◌, refl, Bool, true, false, not, ◌&&◌, ◌||◌, List, [], ◌∷◌, ◌++◌, map, Option, none,
  some, arith, leb, length, if◌then◌else◌,
}
use argus_core.Common.Text.{Text, codes, text_eq}
use argus_core.Config.{WatchlistConfig, tickers_of}
use argus_core.Models.{RawEvent, Draft, PollingState}
use argus_core.Store.{Db}
use argus_core.Unicode.{Unicode, ascii_word}
use argus_core.Poll.{Inbox, Sources, for_each_or_raise, offer, upsert_cursor}
use argus_core.Processor.Filters.{member, mentions}
use argus_core.Rss.Parser.{FeedItem, Parsed, parse_feed}

abbrev pub source : Text
source = codes "rss"

-- `RssPipeline`, as its constructor sets it up.
pub record RssPipeline : Type 0 where
  pub url : Text
  pub cursor_key : Text
  pub ticker_set : List Text
  pub keywords_lower : List Text

-- The constructor; `none` is the KeyError of a watchlist entry with no ticker.
pub rss_pipeline : Unicode → WatchlistConfig → Text → Option RssPipeline
rss_pipeline u config url = elim (tickers_of config.watchlist) [
  | none ↦ none
  | some tickers ↦ some (record {
    url = url;
    cursor_key = codes "rss:" ++ url;
    ticker_set = tickers;
    keywords_lower = map u.lower config.keywords;
  })
]

-- The maximal runs of word characters; `run` holds the current one so far.
unfoldable pub words : (ℕ → Bool) → Text → Text → List Text
words is_word run [] = run ∷ []
words is_word run (c ∷ t) =
    let inside = is_word c in
    let rest = words is_word (if inside then run ++ c ∷ [] else []) t in
    if inside then rest else run ∷ rest

is_upper : ℕ → Bool
is_upper c = leb b'A' c && leb c b'Z'

all_upper : Text → Bool
unfolding is_upper
all_upper [] = true
all_upper (c ∷ t) = is_upper c && all_upper t

-- A match of `\b[A-Z]{1,5}\b` is a whole run of word characters: 1 to 5 capital letters.
unfoldable pub is_candidate : Text → Bool
unfolding all_upper
is_candidate w = leb 1 (length w) && (leb (length w) 5 && all_upper w)

unfoldable pub first_listed : List Text → List Text → Option Text
first_listed tickers [] = none
first_listed tickers (w ∷ ws) =
    if is_candidate w && member w tickers then some w else first_listed tickers ws

module _ (u : Unicode) (sha256 : Text → Text) (p : RssPipeline) where
  -- `_extract_ticker`.
  unfoldable pub extract_ticker : Text → Option Text
  unfolding words first_listed
  extract_ticker text = first_listed p.ticker_set (words u.is_word [] text)

  -- `_is_relevant`.
  unfoldable pub is_relevant : Text → Text → Bool
  is_relevant title body = elim (extract_ticker title) [
    | some _ ↦ true
    | none ↦ mentions u p.keywords_lower title body
  ]

  -- The event of an item, or `none` for one that is passed over.
  unfoldable pub draft : FeedItem → Option Draft
  draft item =
      if is_relevant item.title item.body
      then some (record {
        source = source;
        external_id = item.guid;
        content_hash = sha256 item.guid;
        ticker = extract_ticker item.title;
        title = item.title;
        body = item.body;
        url = item.url;
        poller_meta = none;
      })
      else none

  abbrev first_guid : List FeedItem → Text
  first_guid [] = []
  first_guid (item ∷ _) = item.guid

  -- How a run ended: the count and the database that is committed, or an exception.
  pub data Ended (W : Type 0) : Type 0 where
    returned : ℕ → Db → W → Ended W
    raised : Ended W

  module _ {W : Type 0} (env : Sources W) where
    -- The session of a run over parsed items.
    unfoldable pub ingest : List FeedItem → List RawEvent → W → Option (Inbox W)
    ingest items rows w =
        for_each_or_raise (λ item. offer env (draft item)) items
          (record { rows = rows; world = w; inserted = 0 })

    unfoldable pub close : List FeedItem → Db → Option (Inbox W) → Ended W
    close items db none = raised
    close items db (some s) =
        returned s.inserted
          (record db {
            raw_events = s.rows;
            polling_state = upsert_cursor p.cursor_key (first_guid items) db.polling_state;
          })
          s.world

    -- `run`, after `fetch`: `none` is a fetch that raised.
    unfoldable pub run : Option Parsed → Db → W → Ended W
    unfolding close
    run none db w = returned 0 db w
    run (some parsed) db w =
        let items = parse_feed parsed in close items db (ingest items db.raw_events w)

runs :
    words ascii_word [] (codes "FDA clears PFE's drug")
    ≡ codes "FDA" ∷ codes "clears" ∷ codes "PFE" ∷ codes "s" ∷ codes "drug" ∷ []
unfolding words
runs = refl

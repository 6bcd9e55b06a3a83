-- ===== src/Sec/Pipeline.antt =====
-- src/argus/sec_poller/pipeline.py: fetch the filings, keep the large open-market buys and sales, insert
-- what is new.
pub mod Runs
pub mod Commits
use argus_core.Common.{
  ℕ, ◌≤◌, ◌≡◌, refl, Bool, true, false, List, [], ◌∷◌, ◌++◌, Option, none, some, arith, leb,
  if◌then◌else◌,
}
use argus_core.Common.Text.{Text, codes, text_eq, decimal}
use argus_core.Models.{RawEvent, Draft, PollerMeta, PollingState}
use argus_core.Store.{Db}
use argus_core.Unicode.{Unicode}
use argus_core.Poll.{Inbox, Sources, for_each_or_raise, offer, upsert_cursor}
use argus_core.Sec.Edgar.{Form4Data, Document, Numerals, parse_form4}

abbrev pub source : Text
source = codes "sec_form4"

pub record Form4Filter : Type 0 where
  pub buy_min_usd : ℕ
  pub sell_min_usd : ℕ

-- `Form4Filter.keep`.
unfoldable pub keep : Form4Filter → Text → ℕ → Bool
keep f code value =
    if text_eq code (codes "P")
    then leb f.buy_min_usd value
    else if text_eq code (codes "S")
    then leb f.sell_min_usd value
    else false

-- How a fetch ended: `none` is an exception, and so is a document that does not parse.
pub record SecEnv (W : Type 0) : Type 0 where
  pub sources : Sources W
  pub fetch : Text → W → Option Document × W
  pub sha256 : Text → Text
  pub show_price : ℕ → Text
  pub grouped : ℕ → Text

module _ {W : Type 0} (u : Unicode) (numerals : Numerals) (filter : Form4Filter)
    (env : SecEnv W) where
  -- The columns of a filing.
  unfoldable pub draft : Text → Form4Data → Draft
  draft url f = record {
    source = source;
    external_id = url;
    content_hash =
        env.sha256 (url ++ (codes ":" ++ (f.transaction_code ++ (codes ":" ++ decimal f.shares))));
    ticker = some f.ticker;
    title = codes "Form 4 - " ++ (f.filer_name ++ (codes " (" ++ (f.filer_role ++ codes ")")));
    body =
        codes "Transaction Code: "
        ++ (f.transaction_code
            ++ (codes "\nShares: "
                ++ (decimal f.shares
                    ++ (codes "\nPrice: $"
                        ++ (env.show_price f.price_per_share
                            ++ (codes "\nTotal Value: $"
                                ++ (env.grouped f.value_usd
                                    ++ (codes "\nFiler Role: " ++ f.filer_role))))))));
    url = url;
    poller_meta = some (record {
      filer_name = some f.filer_name;
      filer_role = some f.filer_role;
      transaction_type = some f.transaction_code;
      value_usd = some f.value_usd;
    });
  }

  -- What a filing offers: nothing if it does not parse or is filtered out.
  unfoldable pub offered : Text → Option Form4Data → Option Draft
  offered url none = none
  offered url (some f) =
      if keep filter f.transaction_code f.value_usd then some (draft url f) else none

  -- The body of `for url in urls`.
  unfoldable pub process_url : Text → Inbox W → Option (Inbox W)
  process_url url s =
      let (answer, w) = env.fetch url s.world in
      offer env.sources (offered url (parse_form4 u numerals answer)) (record s { world = w })

  -- How a run ended: the count and the database that is committed, or an exception.
  pub data Ended : Type 0 where
    returned : ℕ → Db → W → Ended
    raised : Ended

  unfoldable pub ingest : List Text → List RawEvent → W → Option (Inbox W)
  ingest urls rows w =
      for_each_or_raise process_url urls (record { rows = rows; world = w; inserted = 0 })

  unfoldable pub close : Text → Db → Option (Inbox W) → Ended
  close since db none = raised
  close since db (some s) =
      returned s.inserted
        (record db {
          raw_events = s.rows;
          polling_state = upsert_cursor source since db.polling_state;
        })
        s.world

  -- `run`; `none` for the URLs is a search that raised.
  unfoldable pub run : Option (List Text) → Text → Db → W → Ended
  unfolding close
  run none since db w = raised
  run (some urls) since db w = close since db (ingest urls db.raw_events w)

-- ===== src/Tests/Filing.antt =====
-- The theorems on the SEC poller, applied to one filing.
use argus_core.Common.{ℕ, suc, ◌≡◌, refl, [], ◌∷◌, some, if◌then◌else◌}
use argus_core.Common.Text.{Text, codes, text_eq, decimal}
use argus_core.Unicode.{ascii}
use argus_core.Models.{new_event}
use argus_core.Store.{find, exists_external}
use argus_core.Poll.{Inbox, for_each_or_raise, offer, insert, add_new}
use argus_core.Poll.Inserts.{Inserted}
use argus_core.Poll.Growth.{Grown}
use argus_core.Sec.Edgar.{Document, Numerals, parse_form4, find_text, Form4Data}
use argus_core.Sec.Pipeline.{Form4Filter, SecEnv, keep, draft, offered, process_url, ingest}
use argus_core.Sec.Pipeline.Runs.{IsLargeTrade, ingest-Inserted, ingest_large_only}
use argus_core.Tests.Samples.{sources}

abbrev pub thresholds : Form4Filter
thresholds = record { buy_min_usd = 100000; sell_min_usd = 1000000 }

-- A purchase of 1000 shares, for 250 dollars each.
abbrev pub filing : Document
filing path =
    if text_eq path (codes "transactionCode")
    then some (some (codes "P"))
    else some (some (codes "250"))

abbrev pub numerals : Numerals
numerals = record { int_of = λ t. some 1000; float_of = λ t. some 250 }

abbrev pub edgar : SecEnv ℕ
edgar = record {
  sources = sources;
  fetch = λ url w. (some filing, suc w);
  sha256 = λ t. [];
  show_price = decimal;
  grouped = decimal;
}

abbrev url : Text
url = codes "https://www.sec.gov/1"

abbrev bought : Form4Data
bought = record {
  ticker = codes "250";
  filer_name = codes "250";
  filer_role = codes "250";
  transaction_code = codes "P";
  shares = 1000;
  price_per_share = 250;
  value_usd = 250000;
}

abbrev filed : Inbox ℕ
filed = record {
  rows = new_event 101 200000000002 (draft ascii numerals thresholds edgar url bought) ∷ [];
  world = 3;
  inserted = 1;
}

run_ends : ingest ascii numerals thresholds edgar (url ∷ []) [] 0 ≡ some filed
unfolding ingest process_url parse_form4 find_text offered keep text_eq for_each_or_raise offer
    add_new insert exists_external find
run_ends = refl

ingest-Inserted_example : Inserted [] filed
ingest-Inserted_example =
    ingest-Inserted ascii numerals thresholds edgar (url ∷ []) [] 0 filed run_ends tt tt

ingest_large_only_example : Grown sources (IsLargeTrade thresholds) [] filed
ingest_large_only_example =
    ingest_large_only ascii numerals thresholds edgar (url ∷ []) [] 0 filed run_ends

-- ===== src/Processor/Cluster.antt =====
-- src/argus/processor/cluster.py: Form 4 events of one ticker, grouped.
pub mod Groups
use argus_core.Common.{
  ℕ, ◌+◌, ◌≤◌, ◌≡◌, refl, Bool, true, false, ◌&&◌, List, [], ◌∷◌, ◌++◌, Option, none, some, arith,
  leb, filter, for_each, length, if◌then◌else◌,
}
use argus_core.Common.Sort.{sort_by}
use argus_core.Common.Text.{Text, codes, text_eq}
use argus_core.Config.{Dict, get, set}
use argus_core.Models.{Status, RawEvent}
use argus_core.Processor.Dedup.{live}

abbrev pub has_ticker : Option Text → Bool
has_ticker none = false
has_ticker (some _) = true

-- The WHERE clause; CLUSTER_STATUSES are the live statuses.
in_cluster : ℕ → RawEvent → Bool
in_cluster since e =
    text_eq e.source (codes "sec_form4")
    && (leb since e.fetched_at && (has_ticker e.ticker && live e.status))

abbrev pub ticker_text : RawEvent → Text
ticker_text e = elim e.ticker [ none ↦ [] | some t ↦ t ]

-- `groups.get(ticker, [])`.
abbrev pub group_or_empty : Option (List RawEvent) → List RawEvent
group_or_empty none = []
group_or_empty (some g) = g

-- `groups.setdefault(event.ticker, []).append(event)`.
pub add_to_group : RawEvent → Dict (List RawEvent) → Dict (List RawEvent)
add_to_group e groups =
    set (ticker_text e) (group_or_empty (get (ticker_text e) groups) ++ e ∷ []) groups

pub group : List RawEvent → Dict (List RawEvent)
unfolding add_to_group
group rows = for_each add_to_group rows []

-- `ahead` is the collation of the database, by which it orders tickers.
module _ (ahead : Text → Text → Bool) where
  -- ORDER BY ticker, fetched_at.
  cluster_order : RawEvent → RawEvent → Bool
  cluster_order a b =
      if text_eq (ticker_text a) (ticker_text b)
      then leb a.fetched_at b.fetched_at
      else ahead (ticker_text a) (ticker_text b)

  -- The rows of the query.
  pub cluster_rows : ℕ → List RawEvent → List RawEvent
  cluster_rows since rows = sort_by cluster_order (filter (in_cluster since) rows)

  -- `find_form4_clusters`.
  pub find_form4_clusters : ℕ → ℕ → List RawEvent → Dict (List RawEvent)
  find_form4_clusters since min_filings rows =
      filter (λ (_, members). leb min_filings (length members)) (group (cluster_rows since rows))

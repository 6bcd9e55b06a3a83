-- ===== src/Rss/Pipeline/Runs.antt =====
-- Runs of src/argus/rss_poller/pipeline.py: the rows that they add, and the tickers that they
-- extract.
use argus_core.Common.{◌≡◌, refl, true, ◌&&◌, List, [], ◌∷◌, some, arith, Bool-cases, inl, inr, sym}
use mathlib.Core.Path.{subst}
use mathlib.Core.List.{append-nil}
use argus_core.Common.Text.{Text}
use argus_core.Models.{RawEvent}
use argus_core.Store.{Distinct}
use argus_core.Unicode.{Unicode}
use argus_core.Poll.{Inbox, Sources}
use argus_core.Poll.Inserts.{UniqueExternal, Inserted}
use argus_core.Poll.Batches.{batch-Present, batch_again, batch-Inserted}
use argus_core.Processor.Filters.{member}
use argus_core.Rss.Parser.{FeedItem}
use argus_core.Rss.Pipeline.{
  RssPipeline, is_candidate, first_listed, words, extract_ticker, draft, ingest,
}

-- A ticker in a text is a watched one, of one to five capital letters.
pub record Watched (tickers : List Text) (t : Text) : Type 0 where
  pub listed : member t tickers ≡ true
  pub shaped : is_candidate t ≡ true

first_listed-Watched :
    (tickers ws : List Text) (t : Text) → first_listed tickers ws ≡ some t → Watched tickers t
unfolding first_listed
first_listed-Watched tickers [] t h = absurd (cc)
first_listed-Watched tickers (w ∷ ws) t h = elim (Bool-cases (is_candidate w && member w tickers)) [
  | inl good ↦
      let e : w ≡ t = ground arith in
      subst (Watched tickers) e (record { listed = ground arith; shaped = ground arith })
  | inr other ↦ first_listed-Watched tickers ws t (ground arith)
]

module _ (u : Unicode) (sha256 : Text → Text) (p : RssPipeline) where
  pub extract_ticker-Watched :
      (text t : Text) → extract_ticker u sha256 p text ≡ some t → Watched p.ticker_set t
  unfolding extract_ticker
  extract_ticker-Watched text t = first_listed-Watched p.ticker_set (words u.is_word [] text) t

  module _ {W : Type 0} (env : Sources W) (items : List FeedItem) (rows : List RawEvent) (w : W)
      (s : Inbox W) (ended : ingest u sha256 p env items rows w ≡ some s) where
    -- A run that ends appends new rows only, as many as it counts, and keeps ids and the pairs of
    -- source and external id unique.
    pub ingest-Inserted : Distinct rows → UniqueExternal rows → Inserted rows s
    unfolding ingest
    ingest-Inserted d unique = batch-Inserted env (draft u sha256 p) rows items _ s ended (record {
      distinct = d;
      unique = unique;
      added = [];
      appended = sym (append-nil rows);
      counted = refl;
      all_fresh = tt;
    })

    -- After a run of the RSS pipeline that ends, a second run over the same items inserts nothing
    -- and leaves the rows as they are, whatever the clock and the fresh ids are by then.
    pub ingest_again :
        (w' : W)
        → ingest u sha256 p env items s.rows w'
          ≡ some (record { rows = s.rows; world = w'; inserted = 0 })
    unfolding ingest
    ingest_again w' =
        batch_again env (draft u sha256 p) items _
          (batch-Present env (draft u sha256 p) items _ s ended)

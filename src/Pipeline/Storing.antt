-- ===== src/Pipeline/Storing.antt =====
-- Whether the rows that the services of src/argus write fit the table that the migrations of src/alembic make.
use argus_core.Common.{
  ◌≤◌, ◌≡◌, refl, sym, ◌∙◌, true, List, Option, none, some, arith, length, All, All-both,
  Bool-cases, inl, inr,
}
use mathlib.Core.Path.{subst}
use argus_core.Common.Text.{Text}
use argus_core.Models.{RawEvent, Draft}
use argus_core.Store.{Db}
use argus_core.Unicode.{Unicode}
use argus_core.Llm.{IsProvider}
use argus_core.Migrations.Typed.{Short, Plain, Typed, Fits-Typed, Kept}
use argus_core.Poll.{Inbox, Sources, offer}
use argus_core.Poll.Batches.{for_each_or_raise_inv}
use argus_core.Poll.Sizes.{FitsDraft, offer-Kept}
use argus_core.Processor.Worker.Sizes.{processor_run-Kept}
use argus_core.Notifier.Worker.Sizes.{delivered-Fits, run_once-Kept}
use argus_core.Notifier.Worker.Effects.{delivered-RowValid}
use argus_core.Notifier.Digest.Run.{result-All}
use argus_core.Notifier.Form4Cluster.Alerts.{run_once_atomic}
use argus_core.Rss.Parser.{FeedItem}
use argus_core.Rss.Pipeline.{RssPipeline, is_candidate, is_relevant, extract_ticker, draft, ingest}
use argus_core.Rss.Pipeline.Runs.{extract_ticker-Watched}
use argus_core.Rss.Pipeline.Commits.{run-Committed}
use argus_core.Sec.Edgar.{Form4Data, Numerals, parse_form4}
use argus_core.Sec.Pipeline.{Form4Filter, SecEnv, keep, offered, process_url}
use argus_core.Sec.Pipeline as Filings
use argus_core.Sec.Pipeline.Commits as FilingCommits
use argus_core.Pipeline.{
  Deployment, Step, process, notify, digest, alert, read_feed, read_filings, Reachable, start, next,
}

-- What the services rely on: a SHA-256 has 64 hexadecimal digits, and the trading symbol of a filing that
-- EDGAR sends at most 16 characters.
pub record ShortInputs {W : Type 0} (d : Deployment W) : Type 0 where
  pub feed_hash : (t : Text) → length (d.sha256 t) ≤ 64
  pub filing_hash : (t : Text) → length (d.sec.sha256 t) ≤ 64
  pub symbol :
      (url : Text) (w : W) (f : Form4Data)
      → parse_form4 d.unicode d.numerals (d.sec.fetch url w).0 ≡ some f
      → length f.ticker ≤ 16

some_same : {a b : Draft} → some a ≡ some b → a ≡ b
some_same h = cc

module _ (u : Unicode) (sha256 : Text → Text) (p : RssPipeline)
    (hash : (t : Text) → length (sha256 t) ≤ 64) where
  candidate-le : (t : Text) → is_candidate t ≡ true → length t ≤ 16
  unfolding is_candidate
  candidate-le t h = ground arith

  ticker-Short : (title : Text) (o : Option Text) → extract_ticker u sha256 p title ≡ o → Short 16 o
  ticker-Short title none h = tt
  ticker-Short title (some t) h =
      candidate-le t (extract_ticker-Watched u sha256 p title t h).shaped

  draft-FitsDraft : (item : FeedItem) (d : Draft) → draft u sha256 p item ≡ some d → FitsDraft d
  unfolding draft
  draft-FitsDraft item d h = elim (Bool-cases (is_relevant u sha256 p item.title item.body)) [
    | inl relevant ↦ subst FitsDraft (some_same (rw relevant at h)) (record {
      source = omega arith;
      content_hash = hash item.guid;
      ticker = ticker-Short item.title (extract_ticker u sha256 p item.title) refl;
    })
    | inr passed ↦ absurd (cc (rw passed at h))
  ]

  module _ {W : Type 0} (env : Sources W) where
    ingest-Kept :
        (items : List FeedItem) (rows : List RawEvent) (w : W) (s : Inbox W)
        → ingest u sha256 p env items rows w ≡ some s
        → All Kept rows
        → All Kept s.rows
    unfolding ingest
    ingest-Kept items rows w s ended k =
        for_each_or_raise_inv (λ t. All Kept t.rows) (λ item. offer env (draft u sha256 p item))
          (λ item t t'. offer-Kept env (draft u sha256 p item) t t' (draft-FitsDraft item)) items
          (record { rows = rows; world = w; inserted = 0 }) s ended k

module _ {W : Type 0} (u : Unicode) (numerals : Numerals) (filter : Form4Filter) (env : SecEnv W)
    (hash : (t : Text) → length (env.sha256 t) ≤ 64)
    (symbol : (url : Text) (w : W) (f : Form4Data)
      → parse_form4 u numerals (env.fetch url w).0 ≡ some f
      → length f.ticker ≤ 16) where
  offered-FitsDraft :
      (url : Text) (o : Option Form4Data) (d : Draft)
      → ((f : Form4Data) → o ≡ some f → length f.ticker ≤ 16)
      → offered u numerals filter env url o ≡ some d
      → FitsDraft d
  unfolding offered Filings.draft
  offered-FitsDraft url none d short h = absurd (cc)
  offered-FitsDraft url (some f) d short h =
      elim (Bool-cases (keep filter f.transaction_code f.value_usd)) [
        | inl kept ↦
            subst FitsDraft (some_same (rw kept at h))
              (record { source = omega arith; content_hash = hash _; ticker = short f refl })
        | inr dropped ↦ absurd (cc (rw dropped at h))
      ]

  url-Kept :
      (url : Text) (t t' : Inbox W)
      → process_url u numerals filter env url t ≡ some t'
      → All Kept t.rows
      → All Kept t'.rows
  unfolding process_url
  url-Kept url t t' e k =
      let (answer, v) = env.fetch url t.world in
      offer-Kept env.sources (offered u numerals filter env url (parse_form4 u numerals answer))
        (record t { world = v }) t'
        (λ d. offered-FitsDraft url (parse_form4 u numerals answer) d (symbol url t.world)) e k

  filings-Kept :
      (urls : List Text) (rows : List RawEvent) (w : W) (s : Inbox W)
      → Filings.ingest u numerals filter env urls rows w ≡ some s
      → All Kept rows
      → All Kept s.rows
  unfolding Filings.ingest
  filings-Kept urls rows w s ended k =
      for_each_or_raise_inv (λ t. All Kept t.rows) (process_url u numerals filter env) url-Kept urls
        (record { rows = rows; world = w; inserted = 0 }) s ended k

module _ {W : Type 0} (d : Deployment W) (provider : IsProvider d.llm) (short : ShortInputs d) where
  step-Kept : (db db' : Db) → Step d db db' → All Kept db.raw_events → All Kept db'.raw_events
  step-Kept db db' (process size locked w e) k =
      subst (λ x. All Kept x.raw_events) (sym e)
        (processor_run-Kept d.unicode d.now d.watchlist d.llm provider size locked db w k)
  step-Kept db db' (notify size locked w e) k =
      subst (λ x. All Kept x.raw_events) (sym e)
        (run_once-Kept d.fmt d.now d.discord size d.instant_score locked db w k)
  step-Kept db db' (digest locked w e) k =
      subst (λ x. All Kept x.raw_events) (sym e)
        (result-All d.now d.discord d.min_relevance_score d.instant_score locked db w Kept
          (λ t row h (v, f). (delivered-RowValid t row h v, delivered-Fits t row f)) k)
  step-Kept db db' (alert w e) k =
      elim (run_once_atomic d.surroundings d.window_h d.min_filings db w) [
        | inl (_, _, same) ↦ subst (λ x. All Kept x.raw_events) (sym (e ∙ same)) k
        | inr (_, _, same) ↦ subst (λ x. All Kept x.raw_events) (sym (e ∙ same)) k
      ]
  step-Kept db db' (read_feed p fetched n w w' e) k =
      elim (run-Committed d.unicode d.sha256 p d.sources fetched n db db' w w' e) [
        | inl same ↦ subst (λ x. All Kept x.raw_events) same k
        | inr c ↦ subst (All Kept) (sym c.rows) (
            ingest-Kept d.unicode d.sha256 p short.feed_hash d.sources c.items db.raw_events w
              c.session c.ends k)
      ]
  step-Kept db db' (read_filings urls since n w w' e) k =
      let c =
        FilingCommits.run-Committed d.unicode d.numerals d.form4_filter d.sec urls since n db db' w
          w' e in
      subst (All Kept) (sym c.rows) (
        filings-Kept d.unicode d.numerals d.form4_filter d.sec short.filing_hash short.symbol c.urls
          db.raw_events w c.session c.ends k)

  Reachable-Kept : (db : Db) → Reachable d db → All Kept db.raw_events
  Reachable-Kept db start = tt
  Reachable-Kept db (next a b r s) = step-Kept a b s (Reachable-Kept a r)

  -- If the LLM provider validates its results, the SHA-256 of a text has at most 64 characters,
  -- and the trading symbols in the filings that EDGAR sends have at most 16, then in every
  -- database that the services lead to from the empty one and in whose texts of raw_events there
  -- are no NUL characters and no surrogates, the table raw_events of the migrations takes every
  -- row: each column has a value of its type, a text within its length and a JSON document both
  -- without NUL characters and surrogates, an integer within its range, and NULL only where it is
  -- allowed. And every row was tried at most three times.
  pub Reachable-Typed :
      (db : Db) → Reachable d db → All Plain db.raw_events → All Typed db.raw_events
  Reachable-Typed db r plain =
      All-both (λ e p (_, f). Fits-Typed e f p) db.raw_events plain (Reachable-Kept db r)

-- ===== src/Pipeline/Wiring.antt =====
-- What the `main` functions of src/argus/notifier/main.py, src/argus/processor/main.py and
-- src/argus/sec_poller/main.py take from the settings and the watchlist. `none` is an exception at the start.
use argus_core.Common.{ℕ, ◌*◌, ◌≡◌, refl, ◌∙◌, Option, none, some, ◌>>=◌}
use argus_core.Common.Text.{Text, codes, text_eq}
use argus_core.Config.{
  Dict, DistinctKeys, get, WatchlistConfig, WatchlistFile, load_watchlist, default_thresholds,
  or_empty,
}
use argus_core.Config.Merging.{or_else, thresholds-merge, thresholds-missing}
use argus_core.Config.Settings.{Settings}
use argus_core.Llm.Providers.{Provider, ProviderSettings, create_provider}
use argus_core.Processor.Filters.{WatchlistFilter, watchlist_filter}
use argus_core.Sec.Pipeline.{Form4Filter}
use argus_core.Unicode.{Unicode}

-- The numbers that the jobs of the notifier are made with.
pub record NotifierJobs : Type 0 where
  pub worker_min_score : ℕ
  pub digest_min_score : ℕ
  pub digest_instant_score : ℕ
  pub window_h : ℕ
  pub min_filings : ℕ

abbrev threshold : WatchlistConfig → Text → Option ℕ
threshold config key = get key config.thresholds

-- `main` of the notifier; a missing threshold is a KeyError.
unfoldable pub notifier_jobs : Settings → WatchlistConfig → Option NotifierJobs
notifier_jobs settings config = do
  worker_min_score ← threshold config (codes "instant_score")
  digest_min_score ← threshold config (codes "min_relevance_score")
  digest_instant_score ← threshold config (codes "instant_score")
  min_filings ← threshold config (codes "form4_cluster_min_filings")
  some (record {
    worker_min_score = worker_min_score;
    digest_min_score = digest_min_score;
    digest_instant_score = digest_instant_score;
    window_h = settings.form4_cluster_window_h;
    min_filings = min_filings;
  })

-- The thresholds are in dollars, and amounts in millionths of a dollar.
abbrev pub millionths : ℕ → ℕ
millionths dollars = dollars * 1000000

-- `main` of the SEC poller.
unfoldable pub form4_filter : WatchlistConfig → Option Form4Filter
form4_filter config = do
  buy_min_usd ← threshold config (codes "form4_buy_min_usd")
  sell_min_usd ← threshold config (codes "form4_sell_min_usd")
  some (record { buy_min_usd = millionths buy_min_usd; sell_min_usd = millionths sell_min_usd })

abbrev provider_settings : Settings → ProviderSettings
provider_settings s = record {
  llm_provider = s.llm_provider;
  deepseek_api_key = s.deepseek_api_key;
  deepseek_model = s.deepseek_model;
  gemini_api_key = s.gemini_api_key;
  gemini_model = s.gemini_model;
}

-- `main` of the processor: a ValueError of `create_provider`, or the KeyError of an entry of the
-- watchlist that has no ticker.
unfoldable pub processor_parts :
    Unicode → Settings → WatchlistConfig → Option (Provider × WatchlistFilter)
processor_parts u settings config = do
  llm ← create_provider (provider_settings settings)
  filter ← watchlist_filter u config
  some (llm, filter)

abbrev value : Option ℕ → ℕ → ℕ
value none default = default
value (some n) default = n

-- The value that a file gives a threshold, or its default.
abbrev pub given : WatchlistFile → Text → ℕ → ℕ
given file key default = value (get key (or_empty file.thresholds)) default

or_else_value : (o : Option ℕ) (default : ℕ) → or_else o (some default) ≡ some (value o default)
or_else_value none default = refl
or_else_value (some n) default = refl

loaded_from :
    (file : WatchlistFile) (o : Option (Dict ℕ)) (key : Text)
    → file.thresholds ≡ o
    → DistinctKeys (or_empty o)
    → get key (load_watchlist file).thresholds
      ≡ or_else (get key (or_empty o)) (get key default_thresholds)
unfolding get
loaded_from file none key h distinct = thresholds-missing file key h
loaded_from file (some t) key h distinct = thresholds-merge file t key h distinct

loaded :
    (file : WatchlistFile) (key : Text) (default : ℕ)
    → DistinctKeys (or_empty file.thresholds)
    → get key default_thresholds ≡ some default
    → get key (load_watchlist file).thresholds ≡ some (given file key default)
loaded file key default distinct h =
    loaded_from file file.thresholds key refl distinct
    ∙ rw h (or_else_value (get key (or_empty file.thresholds)) default)

-- For a watchlist file that gives no threshold twice, or none at all, the notifier and the SEC
-- poller are set up without a KeyError: the minimum score of the worker, both scores of the
-- digest, the minimum number of filings and both amounts of the Form 4 filter, in millionths of a
-- dollar, are the values that the file gives to their thresholds, or the defaults, and the window
-- is that of the settings.
pub services_configured :
    (settings : Settings) (file : WatchlistFile)
    → DistinctKeys (or_empty file.thresholds)
    → (notifier_jobs settings (load_watchlist file)
        ≡ some (record {
          worker_min_score = given file (codes "instant_score") 90;
          digest_min_score = given file (codes "min_relevance_score") 70;
          digest_instant_score = given file (codes "instant_score") 90;
          window_h = settings.form4_cluster_window_h;
          min_filings = given file (codes "form4_cluster_min_filings") 2;
        }))
      × (form4_filter (load_watchlist file)
          ≡ some (record {
            buy_min_usd = millionths (given file (codes "form4_buy_min_usd") 100000);
            sell_min_usd = millionths (given file (codes "form4_sell_min_usd") 1000000);
          }))
unfolding notifier_jobs form4_filter get text_eq
services_configured settings file distinct =
    let instant = loaded file (codes "instant_score") 90 distinct refl in
    let relevant = loaded file (codes "min_relevance_score") 70 distinct refl in
    let filings = loaded file (codes "form4_cluster_min_filings") 2 distinct refl in
    let buy = loaded file (codes "form4_buy_min_usd") 100000 distinct refl in
    let sell = loaded file (codes "form4_sell_min_usd") 1000000 distinct refl in
    (rw (notifier_jobs, instant, relevant, filings) refl, rw (form4_filter, buy, sell) refl)

-- ===== src/Rss/Feeds.antt =====
-- The pipelines that src/argus/rss_poller/main.py makes of the feeds of its file.
use argus_core.Common.{◌≡◌, refl, List, [], ◌∷◌, Option, none, some, ◌>>=◌}
use argus_core.Common.Text.{Text, codes}
use argus_core.Config.{Dict, get, WatchlistConfig}
use argus_core.Config.Settings.{FeedsFile, feeds_of}
use argus_core.Unicode.{Unicode, ascii}
use argus_core.Rss.Pipeline.{RssPipeline, rss_pipeline}

-- A pipeline, and the name of its feed, which the log lines read.
pub record Feed : Type 0 where
  pub pipeline : RssPipeline
  pub name : Option Text

abbrev pub Named : Feed → Type 0
Named f = (n : Text) × (f.name ≡ some n)

-- `RssPipeline(..., feed=feed)`: a feed without a URL is a KeyError, `none`.
unfoldable pub feed_of : Unicode → WatchlistConfig → Dict Text → Option Feed
unfolding get
feed_of u config feed = do
  url ← get (codes "url") feed
  p ← rss_pipeline u config url
  some (record { pipeline = p; name = get (codes "name") feed })

unfoldable pub feeds_from : Unicode → WatchlistConfig → List (Dict Text) → Option (List Feed)
feeds_from u config [] = some []
feeds_from u config (feed ∷ feeds) = do
  f ← feed_of u config feed
  fs ← feeds_from u config feeds
  some (f ∷ fs)

-- `pipelines = [... for feed in feeds_cfg.get("feeds", [])]`.
unfoldable pub pipelines_of : Unicode → WatchlistConfig → FeedsFile → Option (List Feed)
pipelines_of u config file = feeds_from u config (feeds_of file)

abbrev bare : WatchlistConfig
bare = record { watchlist = []; keywords = []; thresholds = [] }

without_url : pipelines_of ascii bare (record { feeds = some ([] ∷ []); defaults = none }) ≡ none
unfolding pipelines_of feeds_of feeds_from feed_of
without_url = refl

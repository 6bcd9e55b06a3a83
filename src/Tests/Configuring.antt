-- ===== src/Tests/Configuring.antt =====
-- The theorem on the start of the services, applied to a file that raises a threshold.
use argus_core.Common.{ℕ, ◌≡◌, [], ◌∷◌, none, some}
use argus_core.Common.Text.{codes, text_eq}
use argus_core.Config.{Dict, get, WatchlistFile, load_watchlist}
use argus_core.Config.Settings.{Settings, default_settings}
use argus_core.Pipeline.Wiring.{notifier_jobs, form4_filter, services_configured}

abbrev raised : Dict ℕ
raised = (codes "instant_score", 95) ∷ []

abbrev file : WatchlistFile
file = record { watchlist = none; keywords = none; thresholds = some raised }

abbrev settings : Settings
settings = default_settings (codes "secret") (codes "https://example.org/hook") (codes "argus")

services_configured_example :
    (notifier_jobs settings (load_watchlist file)
      ≡ some (record {
        worker_min_score = 95;
        digest_min_score = 70;
        digest_instant_score = 95;
        window_h = 48;
        min_filings = 2;
      }))
    × (form4_filter (load_watchlist file)
        ≡ some (record { buy_min_usd = 100000000000; sell_min_usd = 1000000000000 }))
unfolding get text_eq
services_configured_example = services_configured settings file (tt, tt)

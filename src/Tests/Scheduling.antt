-- ===== src/Tests/Scheduling.antt =====
-- The theorems on the jobs of the pollers, applied to a feed that answers at the second attempt and to
-- one that is down.
use argus_core.Common.{
  ℕ, suc, ◌≡◌, ◌≢◌, ◌⊎◌, refl, ◌==◌, if◌then◌else◌, false, List, [], ◌∷◌, Option, some, none,
}
use argus_core.Common.Text.{Text, codes}
use argus_core.Store.{empty}
use argus_core.Unicode.{ascii}
use argus_core.Health.{new_tracker}
use argus_core.Http.{Attempt, returned, status_error, after}
use argus_core.Rss.Parser.{Parsed}
use argus_core.Rss.Feeds.{Feed}
use argus_core.Http.Calls.{Decided}
use argus_core.Rss.Fetch.{poll, poll-cases}
use argus_core.Rss.Pipeline.{RssPipeline, run}
use argus_core.Rss.Pipeline as Feeds
use argus_core.Pipeline.{start}
use argus_core.Pipeline.Scheduled.{Polled, run_all, run_filings, poll_jobs-Polled}
use argus_core.Tests.Samples.{sources}
use argus_core.Tests.Polling.{no_hash, feed}
use argus_core.Tests.Running.{deployment}

abbrev busy : ℕ → Attempt Text
busy n = if n == 1 then status_error 503 (after 1000) else returned []

abbrev no_entries : Text → Parsed
no_entries t = record { bozo = false; entries = [] }

abbrev no_jitter : ℕ → ℕ
no_jitter n = 0

poll-cases_example :
    (k : ℕ) × Decided no_jitter busy k
    × (((b : Text) × (busy k ≡ returned b)
          × (poll ascii no_hash no_jitter no_entries feed sources busy empty 0
              ≡ run ascii no_hash feed sources (some (no_entries b)) empty 0))
        ⊎ (((b : Text) → busy k ≢ returned b)
            × (poll ascii no_hash no_jitter no_entries feed sources busy empty 0
                ≡ Feeds.returned 0 empty 0)))
poll-cases_example = poll-cases ascii no_hash no_jitter no_entries feed sources busy empty 0

abbrev iso : ℕ → Text × ℕ
iso w = (codes "2026-07-11T12:00:00+00:00", suc w)

abbrev down : RssPipeline → ℕ → Option Parsed × ℕ
down p w = (none, suc w)

abbrev since : ℕ → Text × ℕ
since w = (codes "2026-07-09", suc w)

abbrev no_search : Text → ℕ → Option (List Text) × ℕ
no_search t w = (none, suc w)

abbrev feeds : List Feed
feeds = record { pipeline = feed; name = some (codes "fda") } ∷ []

poll_jobs-Polled_example :
    Polled deployment iso (run_all deployment down suc feeds) new_tracker (empty, 0)
    × Polled deployment iso (run_filings deployment since no_search suc) new_tracker (empty, 0)
poll_jobs-Polled_example =
    poll_jobs-Polled deployment iso down since no_search suc feeds new_tracker (empty, 0)
      ((codes "fda", refl), tt) start

-- ===== src/Tests/Starting.antt =====
-- The theorems on the start and the end of the services and of the migrations, applied to a notifier whose
-- client cannot be closed.
use argus_core.Common.{ℕ, suc, Bool, true, false, none}
use argus_core.Common.Text.{codes}
use argus_core.Config.Settings.{Settings, FeedsFile, default_settings}
use argus_core.Pipeline.Mains.{
  Call, Ended, notifier_set_up, processor_set_up, rss_set_up, sec_set_up, notifier_main,
  processor_main, rss_main, sec_main, main-Ended,
}
use argus_core.Migrations.Lock.{run_async_migrations, Connected, run_async_migrations-Connected}
use argus_core.Migrations.Lock as Migrating

abbrev settings : Settings
settings = default_settings (codes "secret") (codes "https://example.org/hook") (codes "argus")

abbrev broken_client : Call → ℕ → ℕ × Bool
broken_client Call.close_client n = (suc n, true)
broken_client _ n = (suc n, false)

abbrev feeds : FeedsFile
feeds = record { feeds = none; defaults = none }

main-Ended_example :
    let notifier = notifier_main broken_client settings 0 in
    let processor = processor_main broken_client settings 0 in
    let rss = rss_main broken_client feeds settings 0 in
    let sec = sec_main broken_client settings 0 in
    Ended (notifier_set_up settings) notifier.raised notifier.calls
    × Ended (processor_set_up settings) processor.raised processor.calls
    × Ended (rss_set_up feeds settings) rss.raised rss.calls
    × Ended (sec_set_up settings) sec.raised sec.calls
main-Ended_example = main-Ended broken_client settings feeds 0

abbrev no_database : Migrating.Call → ℕ → ℕ × Bool
no_database Migrating.connect n = (suc n, true)
no_database _ n = (suc n, false)

run_async_migrations-Connected_example :
    Connected (run_async_migrations no_database 0).raised (run_async_migrations no_database 0).calls
run_async_migrations-Connected_example = run_async_migrations-Connected no_database 0

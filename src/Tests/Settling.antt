-- ===== src/Tests/Settling.antt =====
-- The theorems on repeated runs, applied to a webhook that refuses every event and to an LLM.
use argus_core.Common.{◌*◌, ◌≤◌, ◌≡◌, ◌⊎◌, refl, true, [], some, filter, length, arith, All}
use argus_core.Models.{Status, RawEvent, new_event}
use argus_core.Store.{find}
use argus_core.Unicode.{ascii}
use argus_core.Lifecycle.{RowValid}
use argus_core.Lifecycle.Progress.{runs}
use argus_core.Processor.Classifier.{classify}
use argus_core.Processor.Worker.Service.{search_duplicate, classify-IsClassifier}
use argus_core.Processor.Worker.Drains as Backlog
use argus_core.Notifier.Worker.{selected}
use argus_core.Notifier.Worker.Drains as Alerts
use argus_core.Notifier.Worker.Settled.{ticks-settled}
use argus_core.Tests.Samples.{
  clock, news, news_db, news-Distinct, news-RowValid, watch, llm, llm-IsProvider, refusing,
  plain_format, scored, ranked, ranked_db, ranked-Distinct,
}

ranked-RowValid : All RowValid ranked
unfolding new_event
ranked-RowValid = (
  record { carries = (omega arith, refl, omega arith) },
  (record { carries = (omega arith, refl, omega arith) }, tt),
)

one_waits : 3 * length (filter (Alerts.waiting 90) ranked) ≤ 3
unfolding new_event selected
one_waits = omega arith

first_there : find 1 ranked ≡ some (scored 1 95)
unfolding find new_event
first_there = refl

first_waits : Alerts.waiting 90 (scored 1 95) ≡ true
unfolding new_event selected
first_waits = refl

ticks-settled_example :
    (r : RawEvent) × (find 1
        (runs (Alerts.tick plain_format clock refusing 10 90) 3 (ranked_db, 0)).0.raw_events
      ≡ some r)
    × ((r.status ≡ Status.sent) ⊎ (r.status ≡ Status.failed))
unfolding new_event
ticks-settled_example =
    ticks-settled plain_format clock refusing 10 90 3 ranked_db 0 (scored 1 95) (omega arith)
      ranked-Distinct ranked-RowValid first_there first_waits one_waits

three_wait : 3 * length (filter Backlog.waiting news) ≤ 9
unfolding new_event
three_wait = omega arith

backlog-empties_example :
    filter Backlog.waiting
      (runs
        (Backlog.tick
          (search_duplicate ascii clock)
          (classify ascii clock watch llm)
          (classify-IsClassifier ascii clock watch llm llm-IsProvider)
          20)
        9
        (news_db, 0)).0.raw_events
    ≡ []
backlog-empties_example =
    Backlog.backlog-empties (search_duplicate ascii clock) (classify ascii clock watch llm)
      (classify-IsClassifier ascii clock watch llm llm-IsProvider) 20 9 news_db 0 (omega arith)
      news-Distinct news-RowValid three_wait

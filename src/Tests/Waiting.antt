-- ===== src/Tests/Waiting.antt =====
-- The theorem on the events that wait for the digest, applied to one that waits while the notifier runs.
use argus_core.Common.{◌≡◌, refl, [], ◌∷◌, some, none, arith}
use argus_core.Models.{Status, RawEvent, new_event}
use argus_core.Store.{Db, empty, find, exists_external, All-find}
use argus_core.Lifecycle.Bills.{call_count}
use argus_core.Lifecycle.Resolution.{original}
use argus_core.Lifecycle.Ledger.{delivered_count}
use argus_core.Notifier.Worker.{run_once}
use argus_core.Notifier.Digest as Daily
use argus_core.Pipeline.{notify}
use argus_core.Pipeline.Consistency.{Consistent}
use argus_core.Pipeline.Waiting.{now, later, digest_sends_waiting}
use argus_core.Tests.Samples.{
  scored, clock, nobody, llm-IsProvider, plain_format, accepting, verdict,
}
use argus_core.Tests.Running.{deployment}

abbrev waiting_event : RawEvent
waiting_event = scored 2 80

abbrev waiting_db : Db
waiting_db = record empty {
  raw_events = waiting_event ∷ [];
  llm_calls =
      record {
        event_id = 2;
        provider = verdict.meta.provider;
        model = verdict.meta.model;
        prompt_tokens = 300;
        completion_tokens = 40;
        cost_usd = 90;
        latency_ms = 800;
      }
      ∷ [];
}

waiting-Consistent : Consistent waiting_db
unfolding new_event find exists_external delivered_count call_count
waiting-Consistent = record {
  distinct = (tt, tt);
  unique = (refl, tt);
  valid = (record { carries = (omega arith, refl, omega arith) }, tt);
  ledger = record { at = λ i. ground arith };
  resolved = record {
    at = λ i r h.
        original i r h
          (All-find (λ e. e.duplicate_of ≡ none) i waiting_db.raw_events r h (refl, tt));
  };
  billed = record { at = λ i. ground arith };
  noted = tt;
}

abbrev later_db : Db
later_db = (run_once plain_format clock accepting 10 90 nobody waiting_db 5).db

digest_sends_waiting_example :
    (r' : RawEvent) × (find 2 (Daily.run_once clock accepting 70 90 nobody later_db 8).db.raw_events
      ≡ some r')
    × (r'.status ≡ Status.sent)
unfolding new_event find
digest_sends_waiting_example =
    digest_sends_waiting deployment llm-IsProvider waiting_event 80 refl refl (omega arith)
      (omega arith) waiting_db later_db nobody 8 waiting-Consistent refl
      (later waiting_db later_db now (notify 10 nobody 5 refl)) refl refl

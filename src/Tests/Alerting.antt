-- ===== src/Tests/Alerting.antt =====
-- The theorems on the cluster job, applied to a database with two filings of one ticker.
use argus_core.Common.{ℕ, ◌+◌, ◌-◌, ◌<◌, true, false, List, [], ◌∷◌, some, arith}
use argus_core.Common.Text.{codes}
use argus_core.Models.{RawEvent, Form4Cluster, new_event, hours}
use argus_core.Store.{Db, empty}
use argus_core.Notifier.Form4Cluster.{Surroundings, run_once}
use argus_core.Notifier.Form4Cluster.Spacing.{places, Ids}
use argus_core.Notifier.Form4Cluster.Windows.{Alerted, run_once-Alerted}
use argus_core.Tests.Samples.{at_noon, clock, counter, accepting, plain_format, draft_of}

abbrev pub surroundings : Surroundings ℕ
surroundings = record {
  now = clock;
  fresh = counter;
  discord = accepting;
  commit = λ w. (true, w);
  ahead = λ a b. false;
  fmt = plain_format;
  upper = λ t. t;
}

abbrev members : List RawEvent
members =
    record (new_event 1 at_noon (draft_of [] [] (some (codes "PFE")))) {
      source = codes "sec_form4";
    }
    ∷ record (new_event 2 at_noon (draft_of [] [] (some (codes "PFE")))) {
      source = codes "sec_form4";
    }
    ∷ []

abbrev filings_db : Db
filings_db = record empty { raw_events = members }

-- The counter gives out the ids from 100 on.
abbrev counted : Ids surroundings
counted = record {
  Issued = λ w i. i < 100 + w;
  fresh_unused = λ w h. omega arith;
  fresh_issued = λ w. omega arith;
  kept_by_fresh = λ w i h. omega arith;
  kept_by_now = λ w i h. omega arith;
  kept_by_send = λ w i embeds h. omega arith;
  kept_by_commit = λ w i h. h;
}

abbrev old_alert : Form4Cluster
old_alert = record {
  id = 7;
  ticker = codes "PFE";
  member_event_ids = [];
  window_start = at_noon - hours 97;
  window_end = at_noon - hours 49;
  alerted_at = some (at_noon - hours 49);
  created_at = at_noon - hours 49;
}

abbrev alerted_db : Db
alerted_db = record filings_db { form4_clusters = old_alert ∷ [] }

old_alert-Alerted : Alerted surroundings 48 2 counted 0 (places alerted_db.form4_clusters)
old_alert-Alerted = record { issued = (omega arith, tt); distinct = (tt, tt); spaced = (tt, tt) }

run_once-Alerted_example :
    let (_, db', w') = run_once surroundings 48 2 alerted_db 0 in
    Alerted surroundings 48 2 counted w' (places db'.form4_clusters)
run_once-Alerted_example =
    run_once-Alerted surroundings 48 2 counted alerted_db 0 (λ v. omega arith) old_alert-Alerted

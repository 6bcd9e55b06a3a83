-- ===== src/Pipeline/Consistency.antt =====
-- Which databases the steps of Pipeline keep consistent.
use argus_core.Common.{
  ℕ, ◌≡◌, refl, sym, ◌∙◌, Bool, List, [], ◌∷◌, ◌++◌, arith, All, All-append, All-map, inl, inr,
}
use mathlib.Core.Path.{subst}
use argus_core.Models.{RawEvent}
use argus_core.Store.{Db, empty, find, Distinct}
use argus_core.Lifecycle.{Carries, RowValid}
use argus_core.Lifecycle.Resolution.{AllResolve}
use argus_core.Lifecycle.Rooted.{AllResolve-append}
use argus_core.Lifecycle.Ledger.{Ledger, sent_flag, delivered_count}
use argus_core.Lifecycle.Bills.{Bills, call_count, Bills-append, Noted, Noted-append}
use argus_core.Llm.{IsProvider}
use argus_core.Poll.{Inbox}
use argus_core.Poll.Inserts.{UniqueExternal, Fresh, Inserted}
use argus_core.Processor.Worker.Resolution.{run_once-AllResolve}
use argus_core.Processor.Worker.Service.{
  search_duplicate-IsDuplicateSearch, search_duplicate, processor_run, classify-IsClassifier,
}
use argus_core.Processor.Classifier.{classify}
use argus_core.Processor.Worker.Run as Processing
use argus_core.Processor.Worker.Billing.{run_once-Bills, run_once-Noted}
use argus_core.Processor.Worker.Deliveries.{run_once-UniqueExternal, run_once_keeps-Ledger}
use argus_core.Notifier.Worker.Run as Notifying
use argus_core.Notifier.Digest.Run.{
  result-Distinct, result-UniqueExternal, result-RowValid, result-AllResolve, result-Ledger,
  result-Bills, result-Noted,
}
use argus_core.Notifier.Form4Cluster.Alerts.{run_once_atomic}
use argus_core.Rss.Pipeline.Runs as FeedRuns
use argus_core.Rss.Pipeline.Commits.{run-Committed}
use argus_core.Sec.Pipeline.Commits as FilingCommits
use argus_core.Sec.Pipeline.Runs as FilingRuns
use argus_core.Pipeline.{
  Deployment, Step, process, notify, digest, alert, read_feed, read_filings, Reachable, start, next,
}

-- Ids are unique, and so are the pairs of source and external id; every row carries what its status
-- asks for; an event has one delivered notification if it is sent, and none otherwise; following
-- `duplicate_of` from any row ends at a row that is no duplicate; an event has one LLM call if it has a
-- score, and none otherwise; and every notification is about an event of the table.
pub record Consistent (db : Db) : Type 0 where
  pub distinct : Distinct db.raw_events
  pub unique : UniqueExternal db.raw_events
  pub valid : All RowValid db.raw_events
  pub ledger : Ledger db.raw_events db.notifications
  pub resolved : AllResolve db.raw_events
  pub billed : Bills db.raw_events db.llm_calls
  pub noted : Noted db.raw_events db.notifications

empty-Consistent : Consistent empty
empty-Consistent = record {
  distinct = tt;
  unique = tt;
  valid = tt;
  ledger = record { at = λ i. unfold delivered_count find in refl };
  resolved = record { at = λ i r h. unfold find in absurd (cc) };
  billed = record { at = λ i. unfold call_count find in refl };
  noted = tt;
}

Fresh-RowValid : (e : RawEvent) → Fresh e → RowValid e
Fresh-RowValid e (s, r, d, n) = record {
  carries = subst (λ x. Carries x e) (sym s) (omega (arith, r), d, n);
}

unsent_added : (i : ℕ) (added : List RawEvent) → All Fresh added → sent_flag (find i added) ≡ 0
unfolding find
unsent_added i [] h = refl
unsent_added i (e ∷ es) h = ground (arith, h.0.0, unsent_added i es h.1)

sent_flag-append :
    (i : ℕ) (rows added : List RawEvent)
    → All Fresh added
    → sent_flag (find i (rows ++ added)) ≡ sent_flag (find i rows)
unfolding find
sent_flag-append i [] added h = unsent_added i added h
sent_flag-append i (r ∷ rows) added h = ground (arith, sent_flag-append i rows added h)

-- The session of a poller, and the database that it commits.
module _ {W : Type 0} (db : Db) (s : Inbox W) (c : Consistent db)
    (ins : Inserted db.raw_events s) where
  inserted-Consistent :
      (db' : Db)
      → db'.raw_events ≡ s.rows
      → db'.notifications ≡ db.notifications
      → db'.llm_calls ≡ db.llm_calls
      → Consistent db'
  inserted-Consistent db' same_rows same_notes same_calls = record {
    distinct = rw same_rows ins.distinct;
    unique = rw same_rows ins.unique;
    valid =
        rw (same_rows, ins.appended)
          (All-append RowValid db.raw_events ins.added c.valid
            (All-map Fresh-RowValid ins.added ins.all_fresh));
    ledger = record {
      at = λ i.
          rw (same_notes, same_rows, ins.appended)
            (c.ledger.at i ∙ sym (sent_flag-append i db.raw_events ins.added ins.all_fresh));
    };
    resolved =
        rw (same_rows, ins.appended)
          (AllResolve-append db.raw_events ins.added
            (All-map (λ e (_, _, plain, _). plain) ins.added ins.all_fresh) c.resolved);
    billed =
        rw (same_rows, same_calls, ins.appended)
          (Bills-append db.raw_events ins.added db.llm_calls
            (All-map (λ e (_, _, _, unscored). unscored) ins.added ins.all_fresh) c.billed);
    noted =
        rw (same_rows, same_notes, ins.appended)
          (Noted-append db.raw_events ins.added db.notifications c.noted);
  }

module _ {W : Type 0} (d : Deployment W) where
  process-Consistent :
      IsProvider d.llm
      → (size : ℕ) (locked : ℕ → Bool) (db : Db) (w : W) → Consistent db
      → Consistent (processor_run d.unicode d.now d.watchlist d.llm size locked db w).db
  unfolding processor_run
  process-Consistent provider size locked db w c =
      let search = search_duplicate d.unicode d.now in
      let judge = classify d.unicode d.now d.watchlist d.llm in
      let contract = classify-IsClassifier d.unicode d.now d.watchlist d.llm provider in
      record {
        distinct = Processing.run_once-Distinct search judge contract size locked db w c.distinct;
        unique = run_once-UniqueExternal search judge contract size locked db w c.distinct c.unique;
        valid = Processing.run_once-RowValid search judge contract size locked db w c.valid;
        ledger = run_once_keeps-Ledger search judge contract size locked db w c.distinct c.ledger;
        resolved =
            run_once-AllResolve search judge (search_duplicate-IsDuplicateSearch d.unicode d.now)
              contract size locked db w c.distinct c.valid c.resolved;
        billed = run_once-Bills search judge contract size locked db w c.distinct c.valid c.billed;
        noted = run_once-Noted search judge contract size locked db w c.distinct c.noted;
      }

  -- A step keeps the database consistent.
  pub step-Consistent :
      IsProvider d.llm → (db db' : Db) → Step d db db' → Consistent db → Consistent db'
  step-Consistent provider db db' (process size locked w e) c =
      subst Consistent (sym e) (process-Consistent provider size locked db w c)
  step-Consistent provider db db' (notify size locked w e) c = subst Consistent (sym e) (record {
    distinct =
        Notifying.run_once-Distinct d.fmt d.now d.discord size d.instant_score locked db w
          c.distinct;
    unique =
        Notifying.run_once-UniqueExternal d.fmt d.now d.discord size d.instant_score locked db w
          c.distinct c.unique;
    valid =
        Notifying.run_once-RowValid d.fmt d.now d.discord size d.instant_score locked db w c.valid;
    ledger =
        Notifying.run_once-Ledger d.fmt d.now d.discord size d.instant_score locked db w c.distinct
          c.ledger;
    resolved =
        (Notifying.run_once-AllResolve d.fmt d.now d.discord size d.instant_score locked db w
          c.distinct (c.valid, c.resolved)).1;
    billed =
        Notifying.run_once-Bills d.fmt d.now d.discord size d.instant_score locked db w c.distinct
          c.billed;
    noted =
        Notifying.run_once-Noted d.fmt d.now d.discord size d.instant_score locked db w c.distinct
          c.noted;
  })
  step-Consistent provider db db' (digest locked w e) c = subst Consistent (sym e) (record {
    distinct =
        result-Distinct d.now d.discord d.min_relevance_score d.instant_score locked db w
          c.distinct;
    unique =
        result-UniqueExternal d.now d.discord d.min_relevance_score d.instant_score locked db w
          c.distinct c.unique;
    valid =
        result-RowValid d.now d.discord d.min_relevance_score d.instant_score locked db w c.distinct
          c.valid;
    ledger =
        result-Ledger d.now d.discord d.min_relevance_score d.instant_score locked db w c.distinct
          c.ledger;
    resolved =
        (result-AllResolve d.now d.discord d.min_relevance_score d.instant_score locked db w
          c.distinct (c.valid, c.resolved)).1;
    billed =
        result-Bills d.now d.discord d.min_relevance_score d.instant_score locked db w c.distinct
          c.billed;
    noted =
        result-Noted d.now d.discord d.min_relevance_score d.instant_score locked db w c.distinct
          c.noted;
  })
  step-Consistent provider db db' (alert w e) c =
      elim (run_once_atomic d.surroundings d.window_h d.min_filings db w) [
        | inl (_, _, same) ↦ subst Consistent (sym (e ∙ same)) c
        | inr (_, _, same) ↦ subst Consistent (sym (e ∙ same)) (record {
          distinct = c.distinct;
          unique = c.unique;
          valid = c.valid;
          ledger = c.ledger;
          resolved = c.resolved;
          billed = c.billed;
          noted = c.noted;
        })
      ]
  step-Consistent provider db db' (read_feed p fetched n w w' e) c =
      elim (run-Committed d.unicode d.sha256 p d.sources fetched n db db' w w' e) [
        | inl same ↦ subst Consistent same c
        | inr k ↦
            inserted-Consistent db k.session c
              (FeedRuns.ingest-Inserted d.unicode d.sha256 p d.sources k.items db.raw_events w
                k.session k.ends c.distinct c.unique)
              db' k.rows k.notes k.calls
      ]
  step-Consistent provider db db' (read_filings urls since n w w' e) c =
      let k =
        FilingCommits.run-Committed d.unicode d.numerals d.form4_filter d.sec urls since n db db' w
          w' e in
      inserted-Consistent db k.session c
        (FilingRuns.ingest-Inserted d.unicode d.numerals d.form4_filter d.sec k.urls db.raw_events w
          k.session k.ends c.distinct c.unique)
        db' k.rows k.notes k.calls

  -- If the LLM provider validates its results, then in every database that the services lead to
  -- from the empty one, by runs of their jobs in any order, ids are unique and so are the pairs
  -- of source and external id, every row carries what its status asks for, an event has one
  -- delivered notification if it is sent and none otherwise, following `duplicate_of` from any
  -- row ends at a row that is no duplicate, an event has one LLM call if it has a score and none
  -- otherwise (and there is none about any other id), and every notification is about an event of
  -- the table.
  pub Reachable-Consistent : IsProvider d.llm → (db : Db) → Reachable d db → Consistent db
  Reachable-Consistent provider db start = empty-Consistent
  Reachable-Consistent provider db (next a b r s) =
      step-Consistent provider a b s (Reachable-Consistent provider a r)

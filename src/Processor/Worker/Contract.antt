-- ===== src/Processor/Worker/Contract.antt =====
-- What src/argus/processor/worker.py asks of the search for duplicates and of the classifier.
use argus_core.Common.{◌<◌, ◌≡◌, ◌≢◌, true, false, some}
use argus_core.Models.{Status, RawEvent}
use argus_core.Store.{Db, find, Distinct}
use argus_core.Lifecycle.{Edge, RowValid}
use argus_core.Lifecycle.Bills.{Recorded}
use argus_core.Processor.Classifier.{Call, billed}
use argus_core.Processor.Dedup.{live}
use argus_core.Processor.Worker.{Lookup, found}

-- An original is another row of the table, with a live status.
pub record IsDuplicateSearch {W : Type 0} (find_duplicate : RawEvent → Db → W → Lookup × W)
    : Type 0 where
  pub original :
      (e : RawEvent) (db : Db) (w : W) (c : RawEvent)
      → Distinct db.raw_events
      → (find_duplicate e db w).0 ≡ found (some c)
      → (find c.id db.raw_events ≡ some c) × (live c.status ≡ true) × (c.id ≢ e.id)

-- A classifier writes to its event alone, takes it along one edge, and records one LLM call for
-- each event that it has processed and given a score, and none for another. If it raises, the event is still new; if it does not and leaves
-- the event new, it has counted a try.
pub record IsClassifier {W : Type 0} (classify : RawEvent → Db → W → Call W) : Type 0 where
  pub same_rows : (e : RawEvent) (db : Db) (w : W) → (classify e db w).db.raw_events ≡ db.raw_events
  pub same_notifications :
      (e : RawEvent) (db : Db) (w : W) → (classify e db w).db.notifications ≡ db.notifications
  pub edge :
      (e : RawEvent) (db : Db) (w : W) → e.status ≡ Status.new → Edge e (classify e db w).event
  pub valid :
      (e : RawEvent) (db : Db) (w : W)
      → e.status ≡ Status.new
      → RowValid e
      → RowValid (classify e db w).event
  pub raised_new :
      (e : RawEvent) (db : Db) (w : W)
      → e.status ≡ Status.new
      → (classify e db w).raised ≡ true
      → (classify e db w).event.status ≡ Status.new
  pub tried :
      (e : RawEvent) (db : Db) (w : W)
      → (classify e db w).raised ≡ false
      → (classify e db w).event.status ≡ Status.new
      → e.retry_count < (classify e db w).event.retry_count
  pub recorded :
      (e : RawEvent) (db : Db) (w : W)
      → let c = classify e db w in Recorded e c.event db.llm_calls c.db.llm_calls (billed c)
  pub same_original :
      (e : RawEvent) (db : Db) (w : W) → (classify e db w).event.duplicate_of ≡ e.duplicate_of

-- ===== src/Processor/Worker/Sizes.antt =====
-- The sizes of the rows after a run of src/argus/processor/worker.py.
use argus_core.Common.{ℕ, Bool, Option, none, some, All, All-take, All-filter, Bool-cases, inl, inr}
use argus_core.Common.Sort.{All-sort_by}
use argus_core.Models.{RawEvent}
use argus_core.Store.{Db}
use argus_core.Unicode.{Unicode}
use argus_core.Llm.{LlmProvider, IsProvider}
use argus_core.Lifecycle.Drain.{drain-All}
use argus_core.Migrations.Typed.{Fits, Kept}
use argus_core.Processor.Filters.{WatchlistFilter}
use argus_core.Processor.Classifier.{classify}
use argus_core.Processor.Classifier.Sizes.{tried, retried-Fits, classify-Fits}
use argus_core.Processor.Worker.{fail_open, Session, marked, batch, process_event, run_once}
use argus_core.Processor.Worker.Effects.{
  row_of, after, process_event-writes, after-Edge, after-RowValid,
}
use argus_core.Processor.Worker.Run.{IsNew, batch-IsNew}
use argus_core.Processor.Worker.Service.{search_duplicate, processor_run, classify-IsClassifier}

marked-Fits : (o e : RawEvent) → Fits e → Fits (marked o e)
unfolding marked
marked-Fits o e f = record {
  source = f.source;
  content_hash = f.content_hash;
  ticker = f.ticker;
  sentiment = f.sentiment;
  score = f.score;
  tries = f.tries;
}

module _ {W : Type 0} (u : Unicode) (now : W → ℕ × W) (filter : WatchlistFilter)
    (llm : LlmProvider W) (p : IsProvider llm) where
  row_of-Fits :
      (o : Option RawEvent) (e : RawEvent) (db : Db) (w : W)
      → IsNew e
      → Kept e
      → Fits (row_of (search_duplicate u now) (classify u now filter llm) o e db w)
  unfolding row_of
  row_of-Fits (some o) e db w h (v, f) = marked-Fits o e f
  row_of-Fits none e db w h (v, f) =
      let contract = classify-IsClassifier u now filter llm p in
      let c = classify u now filter llm e db w in
      let g = classify-Fits u now filter llm p e db w (tried e h v) f in
      elim (Bool-cases c.raised) [
        | inl failed ↦
            let still = contract.raised_new e db w h failed in
            rw failed (retried-Fits c.event (tried c.event still (contract.valid e db w h v)) g)
        | inr passed ↦ rw passed g
      ]

  after-Kept :
      (e : RawEvent) (s : Session W)
      → IsNew e
      → Kept e
      → Kept (after (search_duplicate u now) (classify u now filter llm) e s)
  unfolding after
  after-Kept e s h k =
      let search = search_duplicate u now in
      let (looked, w) = search e s.db s.world in
      (
        unfold after in
            after-RowValid search (classify u now filter llm)
              (classify-IsClassifier u now filter llm p) e s h k.0,
        row_of-Fits (fail_open looked) e s.db w h k,
      )

  -- A run of the processor writes only rows that fit.
  pub processor_run-Kept :
      (size : ℕ) (locked : ℕ → Bool) (db : Db) (w : W)
      → All Kept db.raw_events
      → All Kept (processor_run u now filter llm size locked db w).db.raw_events
  unfolding processor_run run_once batch
  processor_run-Kept size locked db w k =
      let search = search_duplicate u now in
      let judge = classify u now filter llm in
      let contract = classify-IsClassifier u now filter llm p in
      drain-All (λ s. s.db.raw_events) (process_event search judge) (after search judge)
        (process_event-writes search judge contract) IsNew (after-Edge search judge contract) Kept
        after-Kept (batch size locked db.raw_events) _ (batch-IsNew size locked db.raw_events)
        (All-take Kept size _ (All-sort_by _ Kept _ (All-filter Kept _ db.raw_events k))) k

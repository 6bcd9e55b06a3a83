-- ===== src/Processor/Worker/Counts.antt =====
-- The count that a run of src/argus/processor/worker.py returns, and the LLM calls that it
-- records.
use argus_core.Common.{
  leb, filter, not, ◌&&◌, ℕ, ◌+◌, ◌≤◌, ◌≡◌, refl, Bool, Option, none, some, arith, length,
  for_each_inv, length-take, ◌∙◌,
}
use argus_core.Common.Sort.{sort_by}
use argus_core.Lifecycle.Bills.{length-Recorded}
use argus_core.Models.{Status, status_eq, RawEvent}
use argus_core.Store.{Db, write}
use argus_core.Processor.Classifier.{Call}
use argus_core.Processor.Worker.{Lookup, fail_open, batch, process_event, round, run_once}
use argus_core.Processor.Worker.Contract.{IsClassifier}

module _ {W : Type 0} (find_duplicate : RawEvent → Db → W → Lookup × W)
    (classify : RawEvent → Db → W → Call W) (c : IsClassifier classify) where
  round-calls :
      (o : Option RawEvent) (e : RawEvent) (db : Db) (w : W) (n : ℕ)
      → let s = round find_duplicate classify o e db w n in
        length s.db.llm_calls + n ≡ length db.llm_calls + s.processed
  unfolding round write
  round-calls (some o) e db w n = refl
  round-calls none e db w n = ground (arith, length-Recorded (c.recorded e db w))

  round-notifications :
      (o : Option RawEvent) (e : RawEvent) (db : Db) (w : W) (n : ℕ)
      → (round find_duplicate classify o e db w n).db.notifications ≡ db.notifications
  unfolding round write
  round-notifications (some o) e db w n = refl
  round-notifications none e db w n = ground (arith, c.same_notifications e db w)

  round-le :
      (o : Option RawEvent) (e : RawEvent) (db : Db) (w : W) (n : ℕ)
      → (round find_duplicate classify o e db w n).processed ≤ n + 1
  unfolding round
  round-le (some o) e db w n = omega arith
  round-le none e db w n = ground arith

  module _ (size : ℕ) (locked : ℕ → Bool) (db : Db) (w : W) where
    -- For a classifier that keeps to its contract, a run of the processor adds as many LLM calls
    -- to the database as the count that it returns.
    pub run_once-calls :
        let s = run_once find_duplicate classify size locked db w in
        length s.db.llm_calls ≡ length db.llm_calls + s.processed
    unfolding run_once process_event
    run_once-calls =
        for_each_inv (λ _ s. length s.db.llm_calls ≡ length db.llm_calls + s.processed)
          (process_event find_duplicate classify)
          (λ e _ s h.
            let (looked, w') = find_duplicate e s.db s.world in
            omega (arith, round-calls (fail_open looked) e s.db w' s.processed))
          (batch size locked db.raw_events) (record { db = db; world = w; processed = 0 })
          (omega arith)

    pub run_once-notifications :
        (run_once find_duplicate classify size locked db w).db.notifications ≡ db.notifications
    unfolding run_once process_event
    run_once-notifications =
        for_each_inv (λ _ s. s.db.notifications ≡ db.notifications)
          (process_event find_duplicate classify)
          (λ e _ s h.
            let (looked, w') = find_duplicate e s.db s.world in
            round-notifications (fail_open looked) e s.db w' s.processed ∙ h)
          (batch size locked db.raw_events) (record { db = db; world = w; processed = 0 }) refl

    processed-le-batch :
        (run_once find_duplicate classify size locked db w).processed
        ≤ length (batch size locked db.raw_events)
    unfolding run_once process_event
    processed-le-batch = omega (
      arith,
      for_each_inv (λ es s. s.processed + length es ≤ length (batch size locked db.raw_events))
          (process_event find_duplicate classify)
          (λ e es s h.
            let (looked, w') = find_duplicate e s.db s.world in
            omega (arith, round-le (fail_open looked) e s.db w' s.processed))
          (batch size locked db.raw_events) (record { db = db; world = w; processed = 0 })
          (omega arith),
    )

    -- A run makes no more LLM calls than its batch is long.
    run_once-le : (run_once find_duplicate classify size locked db w).processed ≤ size
    unfolding batch
    run_once-le = omega (
      arith,
      processed-le-batch,
      length-take size (
          sort_by (λ a b. leb a.fetched_at b.fetched_at)
            (filter (λ e. status_eq e.status Status.new && not (locked e.id)) db.raw_events)),
    )

-- ===== src/Processor/Worker/Run.antt =====
-- What a whole run of src/argus/processor/worker.py does to the table of events.
use argus_core.Common.{
  ℕ, ◌≡◌, ◌∙◌, Bool, true, false, some, not, ◌&&◌, List, arith, All, All-map, All-take,
  All-filter_test, All-filter,
}
use argus_core.Common.Sort.{All-sort_by}
use argus_core.Models.{Status, status_eq, RawEvent}
use argus_core.Store.{
  Db, find, Distinct, Loaded, Loaded-all, Loaded-filter, Loaded-sort_by, Loaded-take, unpicked,
}
use argus_core.Lifecycle.{Evolves, RowValid}
use argus_core.Lifecycle.Drain.{drain-Evolves, drain-Distinct, drain-All, drain-untouched}
use argus_core.Processor.Classifier.{Call}
use argus_core.Processor.Worker.{Lookup, batch, process_event, run_once}
use argus_core.Processor.Worker.Contract.{IsClassifier}
use argus_core.Processor.Worker.Effects.{after, process_event-writes, after-Edge, after-RowValid}

abbrev pub IsNew : RawEvent → Type 0
IsNew e = e.status ≡ Status.new

pub test-IsNew :
    (locked : ℕ → Bool) (e : RawEvent)
    → (status_eq e.status Status.new && not (locked e.id)) ≡ true
    → IsNew e
test-IsNew locked e h = ground arith

module _ (size : ℕ) (locked : ℕ → Bool) (rows : List RawEvent) where
  pub batch-Loaded : Distinct rows → Loaded rows (batch size locked rows)
  unfolding batch
  batch-Loaded d = Loaded-take size (Loaded-sort_by _ (Loaded-filter _ (Loaded-all rows d)))

  pub batch-All :
      (P : RawEvent → Type 0)
      → ((e : RawEvent) → (status_eq e.status Status.new && not (locked e.id)) ≡ true → P e)
      → All P (batch size locked rows)
  unfolding batch
  batch-All P f = All-take P size _ (All-sort_by _ P _ (All-map f _ (All-filter_test _ rows)))

  pub batch-IsNew : All IsNew (batch size locked rows)
  batch-IsNew = batch-All IsNew (test-IsNew locked)

  pub batch-RowValid : All RowValid rows → All RowValid (batch size locked rows)
  unfolding batch
  batch-RowValid h =
      All-take RowValid size _ (All-sort_by _ RowValid _ (All-filter RowValid _ rows h))

module _ {W : Type 0} (find_duplicate : RawEvent → Db → W → Lookup × W)
    (classify : RawEvent → Db → W → Call W) (c : IsClassifier classify) (size : ℕ)
    (locked : ℕ → Bool) (db : Db) (w : W) where
  -- For a classifier that keeps to its contract and a table with unique ids, a run of the
  -- processor deletes no event and adds none, leaves the keys, the ticker, the texts, the URL,
  -- the time of fetching and the metadata of each event as they were, takes it along at most one
  -- edge of the life cycle, and lowers no retry counter.
  pub run_once-Evolves :
      Distinct db.raw_events
      → Evolves db.raw_events (run_once find_duplicate classify size locked db w).db.raw_events
  unfolding run_once
  run_once-Evolves d =
      drain-Evolves (λ s. s.db.raw_events) (process_event find_duplicate classify)
        (after find_duplicate classify) (process_event-writes find_duplicate classify c) IsNew
        (after-Edge find_duplicate classify c) (batch size locked db.raw_events) _
        (batch-Loaded size locked db.raw_events d) (batch-IsNew size locked db.raw_events)

  pub run_once-Distinct :
      Distinct db.raw_events
      → Distinct (run_once find_duplicate classify size locked db w).db.raw_events
  unfolding run_once
  run_once-Distinct d =
      drain-Distinct (λ s. s.db.raw_events) (process_event find_duplicate classify)
        (after find_duplicate classify) (process_event-writes find_duplicate classify c) IsNew
        (after-Edge find_duplicate classify c) (batch size locked db.raw_events) _ d

  -- For a classifier that keeps to its contract, if every row carries what its status asks for,
  -- then so it is after a run of the processor.
  pub run_once-RowValid :
      All RowValid db.raw_events
      → All RowValid (run_once find_duplicate classify size locked db w).db.raw_events
  unfolding run_once
  run_once-RowValid valid =
      drain-All (λ s. s.db.raw_events) (process_event find_duplicate classify)
        (after find_duplicate classify) (process_event-writes find_duplicate classify c) IsNew
        (after-Edge find_duplicate classify c) RowValid (after-RowValid find_duplicate classify c)
        (batch size locked db.raw_events) _ (batch-IsNew size locked db.raw_events)
        (batch-RowValid size locked db.raw_events valid) valid

  -- A row that the query does not pick stays as it is.
  pub run_once-unpicked :
      (i : ℕ) (r : RawEvent)
      → Distinct db.raw_events
      → find i db.raw_events ≡ some r
      → (status_eq r.status Status.new && not (locked r.id)) ≡ false
      → find i (run_once find_duplicate classify size locked db w).db.raw_events ≡ some r
  unfolding run_once
  run_once-unpicked i r d there dropped =
      drain-untouched (λ s. s.db.raw_events) (process_event find_duplicate classify)
        (after find_duplicate classify) (process_event-writes find_duplicate classify c) IsNew
        (after-Edge find_duplicate classify c) i (batch size locked db.raw_events) _
        (batch-IsNew size locked db.raw_events)
        (unpicked (λ e. status_eq e.status Status.new && not (locked e.id)) db.raw_events _ i r
          (batch-Loaded size locked db.raw_events d).found
          (batch-All size locked db.raw_events _ (λ e h. h)) there dropped)
      ∙ there

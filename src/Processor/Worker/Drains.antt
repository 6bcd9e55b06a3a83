-- ===== src/Processor/Worker/Drains.antt =====
-- What repeated runs of src/argus/processor/worker.py come to.
use mathlib.Core.Path.{subst}
use argus_core.Common.{
  ℕ, ◌+◌, ◌-◌, ◌*◌, ◌≤◌, ◌<◌, ◌≡◌, ap, ◌∙◌, Bool, true, false, not, ◌&&◌, List, [], Option, some,
  none, arith, min, length, length-take, filter, All, All-map, All-both, Bool-cases, inl, inr,
}
use argus_core.Common.Sort.{length-sort_by}
use argus_core.Models.{Status, status_eq, RawEvent}
use argus_core.Store.{Db, Distinct}
use argus_core.Lifecycle.{Carries, RowValid}
use argus_core.Lifecycle.Progress.{
  total, weigh, tries_left, drain-total, one_less, runs, runs-settle,
}
use argus_core.Processor.Classifier.{Call, retried}
use argus_core.Processor.Worker.{Lookup, Session, marked, batch, process_event, run_once}
use argus_core.Processor.Worker.Contract.{IsClassifier}
use argus_core.Processor.Worker.Effects.{
  settled_row, row_of, after, process_event-writes, after-Edge,
}
use argus_core.Processor.Worker.Run.{
  IsNew, test-IsNew, batch-Loaded, batch-All, batch-RowValid, run_once-Distinct, run_once-RowValid,
}

abbrev pub unlocked : ℕ → Bool
unlocked i = false

-- The events that a run may take.
abbrev pub waiting : RawEvent → Bool
waiting e = status_eq e.status Status.new && not (unlocked e.id)

-- A row that is new and has been tried once more weighs less, and so does one that is not new.
tried_lighter :
    (e r : RawEvent)
    → IsNew e
    → e.retry_count < 3
    → (r.status ≡ Status.new → e.retry_count < r.retry_count)
    → weigh waiting tries_left r < weigh waiting tries_left e
tried_lighter e r new few h =
    let here : waiting e ≡ true = ground arith in
    elim (Bool-cases (waiting r)) [
      | inl still ↦ let more = h (test-IsNew unlocked r still) in ground arith
      | inr settled ↦ ground arith
    ]

new_try : (r : RawEvent) → RowValid r → IsNew r → r.retry_count < 3
new_try r v h = (subst (λ s. Carries s r) h v.carries).0

-- A row that the worker counts a failure for.
retried_counts :
    (e r : RawEvent) → e.retry_count ≤ r.retry_count → e.retry_count < (retried r).retry_count
unfolding retried
retried_counts e r h = omega arith

marked_settles : (o e : RawEvent) → (marked o e).status ≡ Status.new → ⊥
unfolding marked
marked_settles o e h = cc

module _ {W : Type 0} (find_duplicate : RawEvent → Db → W → Lookup × W)
    (classify : RawEvent → Db → W → Call W) (c : IsClassifier classify) (size : ℕ) where
  -- What a run takes from its batch.
  Ready : RawEvent → Type 0
  Ready e = IsNew e × (e.retry_count < 3)

  settled_row_tried :
      (e : RawEvent) (db : Db) (w : W)
      → IsNew e
      → (settled_row find_duplicate classify (classify e db w)).status ≡ Status.new
      → e.retry_count < (settled_row find_duplicate classify (classify e db w)).retry_count
  unfolding settled_row
  settled_row_tried e db w new h = elim (Bool-cases (classify e db w).raised) [
    | inl failed ↦ rw failed (retried_counts e (classify e db w).event (c.edge e db w new).retries)
    | inr passed ↦ rw passed (c.tried e db w passed (rw passed at h))
  ]

  row_of_tried :
      (o : Option RawEvent) (e : RawEvent) (db : Db) (w : W)
      → IsNew e
      → (row_of find_duplicate classify o e db w).status ≡ Status.new
      → e.retry_count < (row_of find_duplicate classify o e db w).retry_count
  unfolding row_of
  row_of_tried (some o) e db w new h = absurd (marked_settles o e h)
  row_of_tried none e db w new h = settled_row_tried e db w new h

  after_lighter :
      (e : RawEvent) (s : Session W)
      → Ready e
      → weigh waiting tries_left (after find_duplicate classify e s) < weigh waiting tries_left e
  unfolding after Ready
  after_lighter e s h =
      tried_lighter e (after find_duplicate classify e s) h.0 h.1 (row_of_tried _ e _ _ h.0)

  batch-Ready : (rows : List RawEvent) → All RowValid rows → All Ready (batch size unlocked rows)
  unfolding Ready
  batch-Ready rows v =
      All-both (λ e t r. (t, new_try e r t)) (batch size unlocked rows)
        (batch-All size unlocked rows IsNew (test-IsNew unlocked))
        (batch-RowValid size unlocked rows v)

  length-batch :
      (rows : List RawEvent)
      → length (batch size unlocked rows) ≡ min size (length (filter waiting rows))
  unfolding batch
  length-batch rows = length-take size _ ∙ ap (min size) (length-sort_by _ (filter waiting rows))

  -- The job of the scheduler, as a function on the database and the world.
  unfoldable pub tick : Db × W → Db × W
  tick (db, w) = let s = run_once find_duplicate classify size unlocked db w in (s.db, s.world)

  abbrev rows_of : Db × W → List RawEvent
  rows_of s = s.0.raw_events

  abbrev Sound : Db × W → Type 0
  Sound s = Distinct s.0.raw_events × All RowValid s.0.raw_events

  tick-Sound : (s : Db × W) → Sound s → Sound (tick s)
  unfolding tick
  tick-Sound (db, w) (d, v) = (
    run_once-Distinct find_duplicate classify c size unlocked db w d,
    run_once-RowValid find_duplicate classify c size unlocked db w v,
  )

  tick-total :
      1 ≤ size
      → (s : Db × W) → Sound s
      → total waiting tries_left (rows_of (tick s)) ≤ total waiting tries_left (rows_of s) - 1
  unfolding tick run_once Ready
  tick-total room (db, w) (d, v) =
      one_less waiting tries_left db.raw_events _ size (λ r. omega arith) room
        (subst
          (λ n.
            total waiting tries_left
                (run_once find_duplicate classify size unlocked db w).db.raw_events
              + n
            ≤ total waiting tries_left db.raw_events)
          (length-batch db.raw_events)
          (drain-total (λ t. t.db.raw_events) (process_event find_duplicate classify)
            (after find_duplicate classify) (process_event-writes find_duplicate classify c) Ready
            (λ e t h. after-Edge find_duplicate classify c e t h.0) waiting tries_left after_lighter
            (batch size unlocked db.raw_events) (record { db = db; world = w; processed = 0 })
            (batch-Loaded size unlocked db.raw_events d) (batch-Ready db.raw_events v)))

  Sound-heavy : (s : Db × W) → Sound s → All (λ r. waiting r ≡ true → 1 ≤ tries_left r) (rows_of s)
  Sound-heavy (db, w) (d, v) =
      All-map (λ r valid t. omega (arith, new_try r valid (test-IsNew unlocked r t))) db.raw_events
        v

  -- For a classifier that keeps to its contract: if ids are unique, every row carries what its
  -- status asks for, no other worker locks rows, and the batch has room for one event at least,
  -- then no event is new after n runs of the processor, for any n from three times the number of
  -- new events on, also if every call of the LLM fails.
  pub backlog-empties :
      (n : ℕ) (db : Db) (w : W)
      → 1 ≤ size
      → Distinct db.raw_events
      → All RowValid db.raw_events
      → 3 * length (filter waiting db.raw_events) ≤ n
      → filter waiting (runs tick n (db, w)).0.raw_events ≡ []
  backlog-empties n db w room d v enough =
      runs-settle rows_of tick Sound tick-Sound waiting tries_left (tick-total room) Sound-heavy
        (λ r. omega arith) n (db, w) (d, v) enough

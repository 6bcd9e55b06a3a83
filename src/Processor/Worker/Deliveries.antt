-- ===== src/Processor/Worker/Deliveries.antt =====
-- The ledger of deliveries and the keys of the events over a run of
-- src/argus/processor/worker.py.
use argus_core.Common.{ℕ, ◌≡◌, refl, Bool, false, All, All-map}
use argus_core.Models.{Status, status_eq, RawEvent}
use argus_core.Store.{Db, Distinct}
use argus_core.Lifecycle.{Moves, stay, classify, skip, give_up, mark, deliver, park}
use argus_core.Lifecycle.Drain.{drain-keeps, drain-All}
use argus_core.Lifecycle.Ledger.{Ledger, Ledger-unsent}
use argus_core.Poll.Inserts.{UniqueExternal}
use argus_core.Poll.Saves.{UniqueExternal-save}
use argus_core.Processor.Classifier.{Call}
use argus_core.Processor.Worker.{Lookup, batch, process_event, run_once}
use argus_core.Processor.Worker.Contract.{IsClassifier}
use argus_core.Processor.Worker.Counts.{run_once-notifications}
use argus_core.Processor.Worker.Effects.{after, process_event-writes, after-Edge}
use argus_core.Processor.Worker.Run.{batch-Loaded, batch-IsNew}

-- An edge from `new` does not lead to `sent`.
new_unsent : (s t : Status) → Moves s t → s ≡ Status.new → status_eq t Status.sent ≡ false
new_unsent s t (stay r) h = rw h refl
new_unsent s t classify h = refl
new_unsent s t skip h = refl
new_unsent s t give_up h = refl
new_unsent s t mark h = refl
new_unsent s t deliver h = absurd (cc)
new_unsent s t park h = refl

module _ {W : Type 0} (find_duplicate : RawEvent → Db → W → Lookup × W)
    (classify : RawEvent → Db → W → Call W) (c : IsClassifier classify) (size : ℕ)
    (locked : ℕ → Bool) (db : Db) (w : W) (d : Distinct db.raw_events) where
  pub run_once-UniqueExternal :
      UniqueExternal db.raw_events
      → UniqueExternal (run_once find_duplicate classify size locked db w).db.raw_events
  unfolding run_once
  run_once-UniqueExternal =
      drain-keeps (λ s. s.db.raw_events) (process_event find_duplicate classify)
        (after find_duplicate classify) (process_event-writes find_duplicate classify c)
        (λ e. e.status ≡ Status.new) (after-Edge find_duplicate classify c) UniqueExternal
        (λ e s pre there.
          let edge = after-Edge find_duplicate classify c e s pre in
          UniqueExternal-save e (after find_duplicate classify e s) edge.source edge.external_id
            s.db.raw_events (rw edge.id there))
        (batch size locked db.raw_events) _ (batch-Loaded size locked db.raw_events d)
        (batch-IsNew size locked db.raw_events)

  pub run_once_keeps-Ledger :
      Ledger db.raw_events db.notifications
      → let db' = (run_once find_duplicate classify size locked db w).db in
        Ledger db'.raw_events db'.notifications
  unfolding run_once
  run_once_keeps-Ledger l = rw (run_once-notifications find_duplicate classify c size locked db w) (
      drain-keeps (λ s. s.db.raw_events) (process_event find_duplicate classify)
        (after find_duplicate classify) (process_event-writes find_duplicate classify c)
        (λ e. e.status ≡ Status.new) (after-Edge find_duplicate classify c)
        (λ rows. Ledger rows db.notifications)
        (λ e s pre there.
          let edge = after-Edge find_duplicate classify c e s pre in
          let e' = after find_duplicate classify e s in
          Ledger-unsent s.db.raw_events db.notifications e e' there edge.id (rw pre refl)
            (new_unsent e.status e'.status edge.moves pre))
        (batch size locked db.raw_events) _ (batch-Loaded size locked db.raw_events d)
        (batch-IsNew size locked db.raw_events) l)

  -- A run marks no row as sent, so it keeps what holds of every row that is not.
  pub run_once-unsent :
      (P : RawEvent → Type 0)
      → ((r : RawEvent) → status_eq r.status Status.sent ≡ false → P r)
      → All P db.raw_events
      → All P (run_once find_duplicate classify size locked db w).db.raw_events
  unfolding run_once
  run_once-unsent P free =
      drain-All (λ s. s.db.raw_events) (process_event find_duplicate classify)
        (after find_duplicate classify) (process_event-writes find_duplicate classify c)
        (λ e. e.status ≡ Status.new) (after-Edge find_duplicate classify c) P
        (λ e s h _.
          let e' = after find_duplicate classify e s in
          free e'
            (new_unsent e.status e'.status (after-Edge find_duplicate classify c e s h).moves h))
        (batch size locked db.raw_events) _ (batch-IsNew size locked db.raw_events)
        (All-map (λ e h. free e (rw h refl)) _ (batch-IsNew size locked db.raw_events))

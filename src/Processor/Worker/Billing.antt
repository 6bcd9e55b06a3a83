-- ===== src/Processor/Worker/Billing.antt =====
-- The bills of the events, and what the notifications are about, over a run of
-- src/argus/processor/worker.py.
use argus_core.Common.{ℕ, ◌≡◌, refl, sym, arith, Bool, Option, none, some, All, for_each_inv}
use mathlib.Core.Path.{subst}
use argus_core.Models.{RawEvent}
use argus_core.Store.{Db, find, save, write, Distinct, Loaded, Loaded-save}
use argus_core.Lifecycle.{Carries, RowValid}
use argus_core.Lifecycle.Bills.{Bills, Bills-save, Bills-record, Noted, Noted-save}
use argus_core.Lifecycle.Drain.{drain-keeps}
use argus_core.Processor.Classifier.{Call, retried, billed}
use argus_core.Processor.Worker.{
  Lookup, fail_open, Session, marked, batch, process_event, round, settle, run_once,
}
use argus_core.Processor.Worker.Contract.{IsClassifier}
use argus_core.Processor.Worker.Counts.{run_once-notifications}
use argus_core.Processor.Worker.Effects.{
  after, row_of, settled_row, row_of-Edge, process_event-writes, after-Edge,
}
use argus_core.Processor.Worker.Run.{IsNew, batch-Loaded, batch-IsNew, batch-RowValid}

unscored : (e : RawEvent) → IsNew e → RowValid e → e.relevance_score ≡ none
unscored e h v = (subst (λ s. Carries s e) h v.carries).2

module _ {W : Type 0} (find_duplicate : RawEvent → Db → W → Lookup × W)
    (classify : RawEvent → Db → W → Call W) (c : IsClassifier classify) where
  settled_score :
      (k : Call W)
      → (settled_row find_duplicate classify k).relevance_score ≡ k.event.relevance_score
  unfolding settled_row retried
  settled_score k = ground arith

  settled_calls :
      (k : Call W) (n : ℕ) → (settle find_duplicate classify k n).db.llm_calls ≡ k.db.llm_calls
  unfolding settle write
  settled_calls k n = ground arith

  round-Bills :
      (o : Option RawEvent) (e : RawEvent) (db : Db) (w : W) (n : ℕ)
      → IsNew e
      → RowValid e
      → find e.id db.raw_events ≡ some e
      → Bills db.raw_events db.llm_calls
      → Bills
          (save (row_of find_duplicate classify o e db w) db.raw_events)
          (round find_duplicate classify o e db w n).db.llm_calls
  unfolding round row_of marked write
  round-Bills (some o) e db w n h v there b =
      Bills-save db.raw_events db.llm_calls e (marked o e) there refl refl b
  round-Bills none e db w n h v there b =
      let k = classify e db w in
      rw (settled_calls k n) (
        Bills-record db.raw_events db.llm_calls e (settled_row find_duplicate classify k) there
          (row_of-Edge find_duplicate classify c none e db w h).id k.event (billed k)
          (unscored e h v) (settled_score k) (c.recorded e db w) b)

  process_event-Bills :
      (e : RawEvent) (s : Session W)
      → IsNew e
      → RowValid e
      → find e.id s.db.raw_events ≡ some e
      → Bills s.db.raw_events s.db.llm_calls
      → let db' = (process_event find_duplicate classify e s).db in
        Bills db'.raw_events db'.llm_calls
  unfolding process_event after
  process_event-Bills e s h v there b =
      let (looked, w) = find_duplicate e s.db s.world in
      subst
        (λ rows.
          Bills rows
            (round find_duplicate classify (fail_open looked) e s.db w s.processed).db.llm_calls)
        (sym (process_event-writes find_duplicate classify c e s))
        (round-Bills (fail_open looked) e s.db w s.processed h v there b)

  module _ (size : ℕ) (locked : ℕ → Bool) (db : Db) (w : W) (d : Distinct db.raw_events) where
    pub run_once-Bills :
        All RowValid db.raw_events
        → Bills db.raw_events db.llm_calls
        → let db' = (run_once find_duplicate classify size locked db w).db in
          Bills db'.raw_events db'.llm_calls
    unfolding run_once
    run_once-Bills v b =
        (for_each_inv
          (λ es s.
            Loaded s.db.raw_events es
            × All IsNew es
            × All RowValid es
            × Bills s.db.raw_events s.db.llm_calls)
          (process_event find_duplicate classify)
          (λ e es s (l, h, k, b). (
            rw (process_event-writes find_duplicate classify c e s) (
                Loaded-save e (after find_duplicate classify e s)
                  (after-Edge find_duplicate classify c e s h.0).id l),
            h.1,
            k.1,
            process_event-Bills e s h.0 k.0 l.found.0 b,
          ))
          (batch size locked db.raw_events) (record { db = db; world = w; processed = 0 })
          (
            batch-Loaded size locked db.raw_events d,
            batch-IsNew size locked db.raw_events,
            batch-RowValid size locked db.raw_events v,
            b,
          )).3

    pub run_once-Noted :
        Noted db.raw_events db.notifications
        → let db' = (run_once find_duplicate classify size locked db w).db in
          Noted db'.raw_events db'.notifications
    unfolding run_once
    run_once-Noted n = rw (run_once-notifications find_duplicate classify c size locked db w) (
        drain-keeps (λ s. s.db.raw_events) (process_event find_duplicate classify)
          (after find_duplicate classify) (process_event-writes find_duplicate classify c) IsNew
          (after-Edge find_duplicate classify c) (λ rows. Noted rows db.notifications)
          (λ e s h there.
            Noted-save (after find_duplicate classify e s) s.db.raw_events db.notifications)
          (batch size locked db.raw_events) _ (batch-Loaded size locked db.raw_events d)
          (batch-IsNew size locked db.raw_events) n)

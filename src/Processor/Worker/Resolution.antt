-- ===== src/Processor/Worker/Resolution.antt =====
-- The pointers of the duplicates over a run of src/argus/processor/worker.py.
use argus_core.Common.{ℕ, ◌≡◌, refl, Bool, true, List, ◌∷◌, none, some, arith, All, for_each_inv}
use argus_core.Models.{Status, RawEvent}
use argus_core.Store.{Db, Distinct, Distinct-save, Loaded, Loaded-save, All-save, All-find}
use argus_core.Lifecycle.{Carries, RowValid}
use argus_core.Lifecycle.Resolution.{AllResolve, AllResolve-save, Pointer, clear, points}
use argus_core.Processor.Dedup.{live}
use argus_core.Processor.Classifier.{Call, retried}
use argus_core.Processor.Worker.{
  Lookup, query_failed, found, fail_open, Session, marked, batch, process_event, run_once,
}
use argus_core.Processor.Worker.Contract.{IsDuplicateSearch, IsClassifier}
use argus_core.Processor.Worker.Effects.{
  row_of, settled_row, after, process_event-writes, after-Edge, after-RowValid,
}
use argus_core.Processor.Worker.Run.{IsNew, batch-Loaded, batch-IsNew}

live_clear : (s : Status) (r : RawEvent) → Carries s r → live s ≡ true → r.duplicate_of ≡ none
live_clear Status.new r c h = c.1
live_clear Status.processed r c h = c.1
live_clear Status.sent r c h = c.0
live_clear Status.duplicate r c h = absurd (cc)
live_clear Status.failed r c h = absurd (cc)
live_clear Status.skipped r c h = absurd (cc)

new_clear : (e : RawEvent) → IsNew e → RowValid e → e.duplicate_of ≡ none
new_clear e h v = live_clear e.status e v.carries (rw h refl)

module _ {W : Type 0} (find_duplicate : RawEvent → Db → W → Lookup × W)
    (classify : RawEvent → Db → W → Call W) (f : IsDuplicateSearch find_duplicate)
    (c : IsClassifier classify) where
  settled_clear :
      (e : RawEvent) (db : Db) (w : W)
      → e.duplicate_of ≡ none
      → (settled_row find_duplicate classify (classify e db w)).duplicate_of ≡ none
  unfolding settled_row retried
  settled_clear e db w h = ground (arith, c.same_original e db w)

  row_of-Pointer :
      (l : Lookup) (e : RawEvent) (db : Db) (w w' : W)
      → (find_duplicate e db w).0 ≡ l
      → e.duplicate_of ≡ none
      → Distinct db.raw_events
      → All RowValid db.raw_events
      → Pointer db.raw_events (row_of find_duplicate classify (fail_open l) e db w')
  unfolding row_of marked
  row_of-Pointer query_failed e db w w' h plain d v = clear (settled_clear e db w' plain)
  row_of-Pointer (found none) e db w w' h plain d v = clear (settled_clear e db w' plain)
  row_of-Pointer (found (some o)) e db w w' h plain d v =
      let (there, alive, other) = f.original e db w o d h in
      points o refl other there
        (live_clear o.status o (All-find RowValid o.id db.raw_events o there v).carries alive)

  record Tidy (es : List RawEvent) (s : Session W) : Type 0 where
    loaded : Loaded s.db.raw_events es
    all_new : All IsNew es
    distinct : Distinct s.db.raw_events
    valid : All RowValid s.db.raw_events
    resolved : AllResolve s.db.raw_events

  round-Tidy :
      (e : RawEvent) (es : List RawEvent) (s : Session W)
      → Tidy (e ∷ es) s
      → Tidy es (process_event find_duplicate classify e s)
  round-Tidy e es s t =
      let rows = s.db.raw_events in
      let e' = after find_duplicate classify e s in
      let is_new = t.all_new.0 in
      let same : e'.id ≡ e.id = (after-Edge find_duplicate classify c e s is_new).id in
      let v : RowValid e = All-find RowValid e.id rows e t.loaded.found.0 t.valid in
      let plain : e.duplicate_of ≡ none = new_clear e is_new v in
      let wr = process_event-writes find_duplicate classify c e s in
      record {
        loaded = rw wr (Loaded-save e e' same t.loaded);
        all_new = t.all_new.1;
        distinct = rw wr (Distinct-save e' rows t.distinct);
        valid = rw wr (
            All-save RowValid e' rows (after-RowValid find_duplicate classify c e s is_new v)
              t.valid);
        resolved = rw wr (
            AllResolve-save rows e e' t.loaded.found.0 same plain
              (pointer e s plain t.distinct t.valid) t.resolved);
      }
    where
      pointer :
          (x : RawEvent) (y : Session W)
          → x.duplicate_of ≡ none
          → Distinct y.db.raw_events
          → All RowValid y.db.raw_events
          → Pointer y.db.raw_events (after find_duplicate classify x y)
      pointer x y plain d v =
          unfold after in
          row_of-Pointer (find_duplicate x y.db y.world).0 x y.db y.world
            (find_duplicate x y.db y.world).1 refl plain d v

  -- For a search and a classifier that keep to their contracts: if ids are unique, every row
  -- carries what its status asks for, and following `duplicate_of` from any row ends at a row
  -- that is no duplicate, then following it still does so after a run of the processor.
  pub run_once-AllResolve :
      (size : ℕ) (locked : ℕ → Bool) (db : Db) (w : W)
      → Distinct db.raw_events
      → All RowValid db.raw_events
      → AllResolve db.raw_events
      → AllResolve (run_once find_duplicate classify size locked db w).db.raw_events
  unfolding run_once
  run_once-AllResolve size locked db w d v r =
      (for_each_inv Tidy (process_event find_duplicate classify) round-Tidy
        (batch size locked db.raw_events) (record { db = db; world = w; processed = 0 })
        (record {
          loaded = batch-Loaded size locked db.raw_events d;
          all_new = batch-IsNew size locked db.raw_events;
          distinct = d;
          valid = v;
          resolved = r;
        })).resolved

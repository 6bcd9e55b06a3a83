-- ===== src/Processor/Worker/Effects.antt =====
-- What one round of src/argus/processor/worker.py does to the row of its event.
use argus_core.Common.{
  ℕ, ◌+◌, ◌≡◌, refl, Bool, true, false, Option, none, some, arith, tests, leb, if◌then◌else◌,
  Bool-cases, inl, inr,
}
use mathlib.Core.Path.{subst}
use argus_core.Models.{Status, RawEvent}
use argus_core.Store.{Db, save, write}
use argus_core.Lifecycle.{Moves, stay, give_up, mark, Edge, Carries, RowValid}
use argus_core.Processor.Classifier.{Call, retried}
use argus_core.Processor.Worker.{Lookup, fail_open, Session, marked, process_event, round}
use argus_core.Processor.Worker.Contract.{IsClassifier}

marked-Edge : (o e : RawEvent) → e.status ≡ Status.new → Edge e (marked o e)
unfolding marked
marked-Edge o e h = record {
  id = refl;
  source = refl;
  external_id = refl;
  ticker = refl;
  title = refl;
  body = refl;
  url = refl;
  fetched_at = refl;
  poller_meta = refl;
  moves = rw h mark;
  retries = omega arith;
}

moves_of_retry : (b : Bool) → Moves Status.new (if b then Status.failed else Status.new)
moves_of_retry true = give_up
moves_of_retry false = stay Status.new

retried-Edge :
    (e e' : RawEvent)
    → e.status ≡ Status.new
    → e'.status ≡ Status.new
    → Edge e e'
    → Edge e (retried e')
unfolding retried
retried-Edge e e' h h' edge = record {
  id = edge.id;
  source = edge.source;
  external_id = edge.external_id;
  ticker = edge.ticker;
  title = edge.title;
  body = edge.body;
  url = edge.url;
  fetched_at = edge.fetched_at;
  poller_meta = edge.poller_meta;
  moves = rw h (moves_of_retry (leb 3 (e'.retry_count + 1)));
  retries = omega (arith, edge.retries);
}

retried-RowValid : (e : RawEvent) → e.status ≡ Status.new → RowValid e → RowValid (retried e)
unfolding retried
retried-RowValid e h v =
    let (few, original, unscored) = subst (λ s. Carries s e) h v.carries in
    elim (Bool-cases (leb 3 (e.retry_count + 1))) [
      | inl last ↦ record { carries = rw last (omega tests, original) }
      | inr again ↦ record { carries = rw again (ground arith, original, unscored) }
    ]

marked-RowValid : (o e : RawEvent) → RowValid (marked o e)
unfolding marked
marked-RowValid o e = record { carries = tt }

module _ {W : Type 0} (find_duplicate : RawEvent → Db → W → Lookup × W)
    (classify : RawEvent → Db → W → Call W) where
  unfoldable pub settled_row : Call W → RawEvent
  settled_row c = if c.raised then retried c.event else c.event

  unfoldable pub row_of : Option RawEvent → RawEvent → Db → W → RawEvent
  unfolding settled_row
  row_of (some o) e db w = marked o e
  row_of none e db w = settled_row (classify e db w)

  -- The row that a round writes.
  unfoldable pub after : RawEvent → Session W → RawEvent
  unfolding row_of
  after e s = let (looked, w) = find_duplicate e s.db s.world in row_of (fail_open looked) e s.db w

  module _ (c : IsClassifier classify) where
    round-writes :
        (o : Option RawEvent) (e : RawEvent) (db : Db) (w : W) (n : ℕ)
        → (round find_duplicate classify o e db w n).db.raw_events
          ≡ save (row_of o e db w) db.raw_events
    unfolding round row_of write
    round-writes (some o) e db w n = refl
    round-writes none e db w n = ground (arith, c.same_rows e db w)

    pub process_event-writes :
        (e : RawEvent) (s : Session W)
        → (process_event find_duplicate classify e s).db.raw_events
          ≡ save (after e s) s.db.raw_events
    unfolding process_event after
    process_event-writes e s =
        let (looked, w) = find_duplicate e s.db s.world in
        round-writes (fail_open looked) e s.db w s.processed

    pub row_of-Edge :
        (o : Option RawEvent) (e : RawEvent) (db : Db) (w : W)
        → e.status ≡ Status.new
        → Edge e (row_of o e db w)
    unfolding row_of
    row_of-Edge (some o) e db w h = marked-Edge o e h
    row_of-Edge none e db w h = elim (Bool-cases (classify e db w).raised) [
      | inl failed ↦ rw failed (
          retried-Edge e (classify e db w).event h (c.raised_new e db w h failed) (c.edge e db w h))
      | inr passed ↦ rw passed (c.edge e db w h)
    ]

    pub after-Edge : (e : RawEvent) (s : Session W) → e.status ≡ Status.new → Edge e (after e s)
    unfolding after
    after-Edge e s h =
        let (looked, w) = find_duplicate e s.db s.world in row_of-Edge (fail_open looked) e s.db w h

    row_of-RowValid :
        (o : Option RawEvent) (e : RawEvent) (db : Db) (w : W)
        → e.status ≡ Status.new
        → RowValid e
        → RowValid (row_of o e db w)
    unfolding row_of
    row_of-RowValid (some o) e db w h v = marked-RowValid o e
    row_of-RowValid none e db w h v = elim (Bool-cases (classify e db w).raised) [
      | inl failed ↦ rw failed (
          retried-RowValid (classify e db w).event (c.raised_new e db w h failed)
            (c.valid e db w h v))
      | inr passed ↦ rw passed (c.valid e db w h v)
    ]

    pub after-RowValid :
        (e : RawEvent) (s : Session W) → e.status ≡ Status.new → RowValid e → RowValid (after e s)
    unfolding after
    after-RowValid e s h v =
        let (looked, w) = find_duplicate e s.db s.world in
        row_of-RowValid (fail_open looked) e s.db w h v

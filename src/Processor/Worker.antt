-- ===== src/Processor/Worker.antt =====
-- src/argus/processor/worker.py: one run of the processor over a batch of new events. The search
-- for duplicates and the classifier are parameters, as they are objects handed to the worker; the
-- module Service puts in the real ones.
pub mod Contract
pub mod Effects
pub mod Run
pub mod Sizes
pub mod Resolution
pub mod Service
pub mod Billing
pub mod Counts
pub mod Drains
pub mod Deliveries
use argus_core.Common.{
  ℕ, ◌+◌, ◌≤◌, ◌≡◌, refl, Bool, true, false, not, ◌&&◌, List, [], ◌∷◌, Option, none, some, arith,
  leb, filter, take, for_each, if◌then◌else◌,
}
use argus_core.Common.Sort.{sort_by}
use argus_core.Models.{Status, status_eq, RawEvent}
use argus_core.Store.{Db, write}
use argus_core.Processor.Classifier.{Call, retried}

-- How a call of `find_duplicate` ended.
pub data Lookup : Type 0 where
  query_failed : Lookup
  found : Option RawEvent → Lookup

-- `except Exception: duplicate_of = None`.
abbrev pub fail_open : Lookup → Option RawEvent
fail_open query_failed = none
fail_open (found o) = o

pub record Session (W : Type 0) : Type 0 where
  pub db : Db
  pub world : W
  pub processed : ℕ

-- The query of `run_once`: new rows that no other worker has locked, the oldest first.
unfoldable pub batch : ℕ → (ℕ → Bool) → List RawEvent → List RawEvent
batch size locked rows = take size (
    sort_by (λ a b. leb a.fetched_at b.fetched_at)
      (filter (λ e. status_eq e.status Status.new && not (locked e.id)) rows))

pub marked : RawEvent → RawEvent → RawEvent
marked original e = record e { status = Status.duplicate; duplicate_of = some original.id }

module _ {W : Type 0} (find_duplicate : RawEvent → Db → W → Lookup × W)
    (classify : RawEvent → Db → W → Call W) where
  -- The `except Exception` round the classifier, and the count after it.
  settle : Call W → ℕ → Session W
  settle c n =
      if c.raised
      then record { db = write (retried c.event) c.db; world = c.world; processed = n }
      else record {
        db = write c.event c.db;
        world = c.world;
        processed = if status_eq c.event.status Status.processed then n + 1 else n;
      }

  round : Option RawEvent → RawEvent → Db → W → ℕ → Session W
  unfolding settle
  round (some original) e db w n = record {
    db = write (marked original e) db;
    world = w;
    processed = n;
  }
  round none e db w n = settle (classify e db w) n

  -- The body of `for event in events`.
  unfoldable pub process_event : RawEvent → Session W → Session W
  unfolding round
  process_event e s =
      let (looked, w) = find_duplicate e s.db s.world in
      round (fail_open looked) e s.db w s.processed

  -- `run_once` up to the commit: the session that is committed holds the count that is returned.
  unfoldable pub run_once : ℕ → (ℕ → Bool) → Db → W → Session W
  run_once size locked db w =
      for_each process_event (batch size locked db.raw_events)
        (record { db = db; world = w; processed = 0 })

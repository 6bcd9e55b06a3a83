-- ===== src/Notifier/Worker/Run.antt =====
-- What a whole run of src/argus/notifier/worker.py does to the tables.
use argus_core.Common.{
  ℕ, ◌+◌, ◌≡◌, ◌∙◌, refl, Bool, true, false, some, List, [], ◌∷◌, arith, length, length-append, All,
  All-map, All-take, All-filter, All-filter_test, for_each_inv,
}
use argus_core.Common.Sort.{All-sort_by}
use argus_core.Models.{RawEvent}
use argus_core.Store.{
  Db, find, Distinct, Loaded, Loaded-all, Loaded-filter, Loaded-sort_by, Loaded-take, unpicked,
  write, add_notification,
}
use argus_core.Lifecycle.{Evolves, RowValid}
use argus_core.Lifecycle.Drain.{
  drain-Evolves, drain-Distinct, drain-All, drain-keeps, drain-maintains, drain-untouched,
}
use argus_core.Lifecycle.Ledger.{Ledger}
use argus_core.Lifecycle.Bills.{Bills, Noted}
use argus_core.Lifecycle.Rooted.{ValidResolve, ValidResolve-save}
use argus_core.Poll.Inserts.{UniqueExternal}
use argus_core.Poll.Saves.{UniqueExternal-save}
use argus_core.Notifier.Embeds.{FloatFormat, build_embed}
use argus_core.Notifier.Worker.{Discord, Session, selected, batch, settle, process_event, run_once}
use argus_core.Notifier.Worker.Effects.{
  IsProcessed, after, process_event-writes, after-Edge, after-RowValid, process_event-Ledger,
  process_event-Bills, process_event-Noted,
}

pub selected-IsProcessed :
    (min_score : ℕ) (locked : ℕ → Bool) (e : RawEvent)
    → selected min_score locked e ≡ true
    → IsProcessed e
unfolding selected
selected-IsProcessed min_score locked e h = ground arith

module _ (size min_score : ℕ) (locked : ℕ → Bool) (rows : List RawEvent) where
  pub batch-Loaded : Distinct rows → Loaded rows (batch size min_score locked rows)
  unfolding batch
  batch-Loaded d = Loaded-take size (Loaded-sort_by _ (Loaded-filter _ (Loaded-all rows d)))

  pub batch-All :
      (P : RawEvent → Type 0)
      → ((e : RawEvent) → selected min_score locked e ≡ true → P e)
      → All P (batch size min_score locked rows)
  unfolding batch
  batch-All P f = All-take P size _ (All-sort_by _ P _ (All-map f _ (All-filter_test _ rows)))

  pub batch-IsProcessed : All IsProcessed (batch size min_score locked rows)
  batch-IsProcessed = batch-All IsProcessed (selected-IsProcessed min_score locked)

  pub batch-RowValid : All RowValid rows → All RowValid (batch size min_score locked rows)
  unfolding batch
  batch-RowValid h =
      All-take RowValid size _ (All-sort_by _ RowValid _ (All-filter RowValid _ rows h))

module _ {W : Type 0} (fmt : FloatFormat) (now : W → ℕ × W) (discord : Discord W)
    (size min_score : ℕ) (locked : ℕ → Bool) (db : Db) (w : W) where
  abbrev start : Session W
  start = record { db = db; world = w; sent = 0 }

  -- A run deletes no event and adds none, and takes each along at most one edge of the life cycle.
  pub run_once-Evolves :
      Distinct db.raw_events
      → Evolves db.raw_events (run_once fmt now discord size min_score locked db w).db.raw_events
  unfolding run_once
  run_once-Evolves d =
      drain-Evolves (λ s. s.db.raw_events) (process_event fmt now discord) (after fmt now discord)
        (process_event-writes fmt now discord) IsProcessed (after-Edge fmt now discord)
        (batch size min_score locked db.raw_events) start
        (batch-Loaded size min_score locked db.raw_events d)
        (batch-IsProcessed size min_score locked db.raw_events)

  pub run_once-Distinct :
      Distinct db.raw_events
      → Distinct (run_once fmt now discord size min_score locked db w).db.raw_events
  unfolding run_once
  run_once-Distinct =
      drain-Distinct (λ s. s.db.raw_events) (process_event fmt now discord) (after fmt now discord)
        (process_event-writes fmt now discord) IsProcessed (after-Edge fmt now discord)
        (batch size min_score locked db.raw_events) start

  pub run_once-RowValid :
      All RowValid db.raw_events
      → All RowValid (run_once fmt now discord size min_score locked db w).db.raw_events
  unfolding run_once
  run_once-RowValid valid =
      drain-All (λ s. s.db.raw_events) (process_event fmt now discord) (after fmt now discord)
        (process_event-writes fmt now discord) IsProcessed (after-Edge fmt now discord) RowValid
        (after-RowValid fmt now discord) (batch size min_score locked db.raw_events) start
        (batch-IsProcessed size min_score locked db.raw_events)
        (batch-RowValid size min_score locked db.raw_events valid) valid

  -- A row that the query does not pick stays as it is.
  pub run_once-unpicked :
      (i : ℕ) (r : RawEvent)
      → Distinct db.raw_events
      → find i db.raw_events ≡ some r
      → selected min_score locked r ≡ false
      → find i (run_once fmt now discord size min_score locked db w).db.raw_events ≡ some r
  unfolding run_once
  run_once-unpicked i r d there dropped =
      drain-untouched (λ s. s.db.raw_events) (process_event fmt now discord) (after fmt now discord)
        (process_event-writes fmt now discord) IsProcessed (after-Edge fmt now discord) i
        (batch size min_score locked db.raw_events) start
        (batch-IsProcessed size min_score locked db.raw_events)
        (unpicked (selected min_score locked) db.raw_events _ i r
          (batch-Loaded size min_score locked db.raw_events d).found
          (batch-All size min_score locked db.raw_events _ (λ e h. h)) there dropped)
      ∙ there

  pub run_once-UniqueExternal :
      Distinct db.raw_events
      → UniqueExternal db.raw_events
      → UniqueExternal (run_once fmt now discord size min_score locked db w).db.raw_events
  unfolding run_once
  run_once-UniqueExternal d =
      drain-keeps (λ s. s.db.raw_events) (process_event fmt now discord) (after fmt now discord)
        (process_event-writes fmt now discord) IsProcessed (after-Edge fmt now discord)
        UniqueExternal
        (λ e s pre there.
          let edge = after-Edge fmt now discord e s pre in
          UniqueExternal-save e (after fmt now discord e s) edge.source edge.external_id
            s.db.raw_events (rw edge.id there))
        (batch size min_score locked db.raw_events) start
        (batch-Loaded size min_score locked db.raw_events d)
        (batch-IsProcessed size min_score locked db.raw_events)

  pub run_once-AllResolve :
      Distinct db.raw_events
      → ValidResolve db.raw_events
      → ValidResolve (run_once fmt now discord size min_score locked db w).db.raw_events
  unfolding run_once
  run_once-AllResolve d =
      drain-keeps (λ s. s.db.raw_events) (process_event fmt now discord) (after fmt now discord)
        (process_event-writes fmt now discord) IsProcessed (after-Edge fmt now discord) ValidResolve
        (λ e s pre there.
          ValidResolve-save s.db.raw_events e (after fmt now discord e s) there
            (after-Edge fmt now discord e s pre) pre (after-RowValid fmt now discord e s pre))
        (batch size min_score locked db.raw_events) start
        (batch-Loaded size min_score locked db.raw_events d)
        (batch-IsProcessed size min_score locked db.raw_events)

  -- A run keeps what each round of a processed row keeps.
  run_once-maintains :
      (P : Session W → Type 0)
      → ((e : RawEvent) (s : Session W)
          → IsProcessed e
          → find e.id s.db.raw_events ≡ some e
          → P s
          → P (process_event fmt now discord e s))
      → Distinct db.raw_events
      → P start
      → P (run_once fmt now discord size min_score locked db w)
  unfolding run_once
  run_once-maintains P keep d =
      drain-maintains (λ s. s.db.raw_events) (process_event fmt now discord) (after fmt now discord)
        (process_event-writes fmt now discord) IsProcessed (after-Edge fmt now discord) P keep
        (batch size min_score locked db.raw_events) start
        (batch-Loaded size min_score locked db.raw_events d)
        (batch-IsProcessed size min_score locked db.raw_events)

  -- If ids are unique, and every event has one delivered notification when it is sent and none
  -- otherwise, then this still holds after a run of the notifier, whatever Discord answers.
  pub run_once-Ledger :
      Distinct db.raw_events
      → Ledger db.raw_events db.notifications
      → let db' = (run_once fmt now discord size min_score locked db w).db in
        Ledger db'.raw_events db'.notifications
  run_once-Ledger =
      run_once-maintains (λ s. Ledger s.db.raw_events s.db.notifications)
        (process_event-Ledger fmt now discord)

  pub run_once-Bills :
      Distinct db.raw_events
      → Bills db.raw_events db.llm_calls
      → let db' = (run_once fmt now discord size min_score locked db w).db in
        Bills db'.raw_events db'.llm_calls
  run_once-Bills =
      run_once-maintains (λ s. Bills s.db.raw_events s.db.llm_calls)
        (process_event-Bills fmt now discord)

  pub run_once-Noted :
      Distinct db.raw_events
      → Noted db.raw_events db.notifications
      → let db' = (run_once fmt now discord size min_score locked db w).db in
        Noted db'.raw_events db'.notifications
  run_once-Noted =
      run_once-maintains (λ s. Noted s.db.raw_events s.db.notifications)
        (process_event-Noted fmt now discord)

  settle-notes :
      (ok : Bool) (e : RawEvent) (b : Db) (v : W) (n : ℕ)
      → length (settle fmt now discord ok e b v n).db.notifications ≡ length b.notifications + 1
  unfolding settle write add_notification
  settle-notes true e b v n = length-append b.notifications _
  settle-notes false e b v n = length-append b.notifications _

  -- A run of the notifier adds as many notifications to the database as there are events in its
  -- batch.
  pub run_once-notes :
      length (run_once fmt now discord size min_score locked db w).db.notifications
      ≡ length db.notifications + length (batch size min_score locked db.raw_events)
  unfolding run_once process_event
  run_once-notes = omega (
    arith,
    for_each_inv
        (λ es s.
          length s.db.notifications + length es
          ≡ length db.notifications + length (batch size min_score locked db.raw_events))
        (process_event fmt now discord)
        (λ e es s h.
          let (ok, v) = discord.send (build_embed fmt e ∷ []) s.world in
          omega (arith, settle-notes ok e s.db v s.sent))
        (batch size min_score locked db.raw_events) start refl,
  )

-- ===== src/Notifier/Worker/Settled.antt =====
-- What becomes of one event under repeated runs of src/argus/notifier/worker.py.
use argus_core.Common.{
  ℕ, ◌+◌, ◌*◌, ◌≤◌, ◌≡◌, ◌⊎◌, refl, Bool, true, false, List, some, arith, leb, length, filter, All,
  ◌∙◌, Bool-cases, inl, inr, ◌==◌,
}
use argus_core.Models.{Status, RawEvent}
use argus_core.Store.{Db, find, find-save, find-save_ne, find-All_filter, Distinct}
use argus_core.Lifecycle.{RowValid}
use argus_core.Lifecycle.Drain.{drain-keeps}
use argus_core.Lifecycle.Progress.{runs, runs-keeps}
use argus_core.Notifier.Embeds.{FloatFormat}
use argus_core.Notifier.Worker.{
  Discord, Session, selected, batch, delivered, refused, process_event, run_once, max_retries,
}
use argus_core.Notifier.Worker.Effects.{row_of, after, process_event-writes, after-Edge}
use argus_core.Notifier.Worker.Run.{batch-Loaded}
use argus_core.Notifier.Worker.Drains.{
  waiting, unlocked, Ready, Ready-IsProcessed, batch-Ready, tick, rows_of, Sound, tick-Sound,
  ticks-settle,
}

module _ (min_score : ℕ) where
  -- The row is settled, or waits with the score and the lock that it had.
  settled_or_waiting :
      (e : RawEvent)
      → waiting min_score e ≡ true
      → (waiting min_score (refused e) ≡ true) ⊎ ((refused e).status ≡ Status.failed)
  unfolding refused selected
  settled_or_waiting e h = elim (Bool-cases (leb max_retries (e.retry_count + 1))) [
    | inl last ↦ inr (rw last refl)
    | inr again ↦ inl (rw again h)
  ]

module _ {W : Type 0} (fmt : FloatFormat) (now : W → ℕ × W) (discord : Discord W)
    (size min_score : ℕ) where
  -- An event that waits, or is settled.
  abbrev Outcome : RawEvent → Type 0
  Outcome r = (waiting min_score r ≡ true) ⊎ ((r.status ≡ Status.sent) ⊎ (r.status ≡ Status.failed))

  Followed : ℕ → List RawEvent → Type 0
  Followed i rows = (r : RawEvent) × (find i rows ≡ some r) × Outcome r

  row_of-Outcome :
      (ok : Bool) (e : RawEvent) (w : W)
      → (Ready fmt now discord size min_score) e
      → Outcome (row_of fmt now discord ok e w)
  unfolding row_of Ready delivered
  row_of-Outcome true e w h = inr (inl refl)
  row_of-Outcome false e w h = elim (settled_or_waiting min_score e h.0) [
    | inl again ↦ inl again
    | inr parked ↦ inr (inr parked)
  ]

  after-Outcome :
      (e : RawEvent) (s : Session W)
      → (Ready fmt now discord size min_score) e
      → Outcome (after fmt now discord e s)
  unfolding after
  after-Outcome e s h = row_of-Outcome _ e _ h

  tick-Followed :
      (i : ℕ) (s : Db × W)
      → (Sound fmt now discord size min_score) s
      → Followed i ((rows_of fmt now discord size min_score) s)
      → Followed i
          ((rows_of fmt now discord size min_score) ((tick fmt now discord size min_score) s))
  unfolding tick run_once Followed
  tick-Followed i (db, w) (d, v) =
      drain-keeps (λ t. t.db.raw_events) (process_event fmt now discord) (after fmt now discord)
        (process_event-writes fmt now discord) (Ready fmt now discord size min_score)
        (λ e t h.
          after-Edge fmt now discord e t ((Ready-IsProcessed fmt now discord size min_score) e h))
        (Followed i)
        (λ e t h there (r, is, outcome). elim (Bool-cases (e.id == i)) [
          | inl same ↦
              let same_id =
                (after-Edge fmt now discord e t
                  ((Ready-IsProcessed fmt now discord size min_score) e h)).id in
              (
                after fmt now discord e t,
                find-save i (after fmt now discord e t) t.db.raw_events e (rw same_id there)
                    ∙ rw (same_id, same) refl,
                after-Outcome e t h,
              )
          | inr other ↦
              let same_id =
                (after-Edge fmt now discord e t
                  ((Ready-IsProcessed fmt now discord size min_score) e h)).id in
              (
                r,
                find-save_ne i (after fmt now discord e t) t.db.raw_events (ground arith) ∙ is,
                outcome,
              )
        ])
        (batch size min_score unlocked db.raw_events) (record { db = db; world = w; sent = 0 })
        (batch-Loaded size min_score unlocked db.raw_events d)
        ((batch-Ready fmt now discord size min_score) db.raw_events v)

  -- If ids are unique, every row carries what its status asks for, no other notifier locks rows,
  -- and the batch has room for one event at least, then an event that is processed and has the
  -- score is sent or failed after n runs of the notifier, for any n from three times the number
  -- of such events on, whatever Discord answers.
  pub ticks-settled :
      (n : ℕ) (db : Db) (w : W) (e : RawEvent)
      → 1 ≤ size
      → Distinct db.raw_events
      → All RowValid db.raw_events
      → find e.id db.raw_events ≡ some e
      → waiting min_score e ≡ true
      → 3 * length (filter (waiting min_score) db.raw_events) ≤ n
      → (r : RawEvent) × (find e.id
            (runs (tick fmt now discord size min_score) n (db, w)).0.raw_events
          ≡ some r)
        × ((r.status ≡ Status.sent) ⊎ (r.status ≡ Status.failed))
  unfolding Followed
  ticks-settled n db w e room d v there h enough =
      let (sound, (r, is, outcome)) =
        runs-keeps (rows_of fmt now discord size min_score) (tick fmt now discord size min_score)
          (λ s.
            (Sound fmt now discord size min_score) s
            × Followed e.id ((rows_of fmt now discord size min_score) s))
          (λ s k. ((tick-Sound fmt now discord size min_score) s k.0, tick-Followed e.id s k.0 k.1))
          n (db, w) ((d, v), (e, there, inl h)) in
      elim outcome [
        | inl still ↦ absurd (
            find-All_filter (λ _. ⊥) (waiting min_score) _ e.id r
              (rw ((ticks-settle fmt now discord size min_score) n db w room d v enough) tt) is
              still)
        | inr settled ↦ (r, is, settled)
      ]

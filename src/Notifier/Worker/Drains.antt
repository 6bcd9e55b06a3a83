-- ===== src/Notifier/Worker/Drains.antt =====
-- What repeated runs of src/argus/notifier/worker.py come to.
use mathlib.Core.Path.{subst}
use argus_core.Common.{
  ℕ, ◌+◌, ◌-◌, ◌*◌, ◌≤◌, ◌<◌, ◌≡◌, Bool, true, false, List, [], arith, leb, min, length,
  length-take, filter, All, All-map, All-both, ap, ◌∙◌, Bool-cases, inl, inr,
}
use argus_core.Common.Sort.{length-sort_by}
use argus_core.Models.{RawEvent}
use argus_core.Store.{Db, Distinct}
use argus_core.Lifecycle.{Carries, RowValid}
use argus_core.Lifecycle.Progress.{
  total, weigh, tries_left, drain-total, one_less, runs, runs-settle,
}
use argus_core.Notifier.Embeds.{FloatFormat}
use argus_core.Notifier.Worker.{
  Discord, Session, selected, batch, delivered, refused, process_event, run_once, max_retries,
}
use argus_core.Notifier.Worker.Effects.{
  IsProcessed, row_of, after, process_event-writes, after-Edge,
}
use argus_core.Notifier.Worker.Run.{
  selected-IsProcessed, batch-Loaded, batch-All, batch-RowValid, run_once-Distinct,
  run_once-RowValid,
}

abbrev pub unlocked : ℕ → Bool
unlocked i = false

-- The events that a run may send.
abbrev pub waiting : ℕ → RawEvent → Bool
waiting min_score = selected min_score unlocked

module _ (min_score : ℕ) where
  refused_lighter :
      (e : RawEvent)
      → e.retry_count < 3
      → waiting min_score e ≡ true
      → weigh (waiting min_score) tries_left (refused e) < weigh (waiting min_score) tries_left e
  unfolding refused selected
  refused_lighter e few h = elim (Bool-cases (leb max_retries (e.retry_count + 1))) [
    | inl last ↦ rw last (ground arith)
    | inr again ↦ rw again (ground arith)
  ]

  delivered_lighter :
      (t : ℕ) (e : RawEvent)
      → e.retry_count < 3
      → waiting min_score e ≡ true
      → weigh (waiting min_score) tries_left (delivered t e)
        < weigh (waiting min_score) tries_left e
  unfolding delivered selected
  delivered_lighter t e few h = ground arith

  -- A processed row has a try left.
  waiting_try : (r : RawEvent) → RowValid r → waiting min_score r ≡ true → r.retry_count < 3
  waiting_try r v h =
      (subst (λ s. Carries s r) (selected-IsProcessed min_score unlocked r h) v.carries).0

module _ {W : Type 0} (fmt : FloatFormat) (now : W → ℕ × W) (discord : Discord W)
    (size min_score : ℕ) where
  -- What a run takes from its batch.
  unfoldable pub Ready : RawEvent → Type 0
  Ready e = (waiting min_score e ≡ true) × (e.retry_count < 3)

  row_of_lighter :
      (ok : Bool) (e : RawEvent) (w : W)
      → Ready e
      → weigh (waiting min_score) tries_left (row_of fmt now discord ok e w)
        < weigh (waiting min_score) tries_left e
  unfolding row_of Ready
  row_of_lighter true e w h = delivered_lighter min_score _ e h.1 h.0
  row_of_lighter false e w h = refused_lighter min_score e h.1 h.0

  after_lighter :
      (e : RawEvent) (s : Session W)
      → Ready e
      → weigh (waiting min_score) tries_left (after fmt now discord e s)
        < weigh (waiting min_score) tries_left e
  unfolding after
  after_lighter e s h = row_of_lighter _ e _ h

  pub batch-Ready :
      (rows : List RawEvent) → All RowValid rows → All Ready (batch size min_score unlocked rows)
  unfolding Ready
  batch-Ready rows v =
      All-both (λ e t r. (t, waiting_try min_score e r t)) (batch size min_score unlocked rows)
        (batch-All size min_score unlocked rows (λ e. waiting min_score e ≡ true) (λ e t. t))
        (batch-RowValid size min_score unlocked rows v)

  pub Ready-IsProcessed : (e : RawEvent) → Ready e → IsProcessed e
  unfolding Ready
  Ready-IsProcessed e h = selected-IsProcessed min_score unlocked e h.0

  length-batch :
      (rows : List RawEvent)
      → length (batch size min_score unlocked rows)
        ≡ min size (length (filter (waiting min_score) rows))
  unfolding batch
  length-batch rows =
      length-take size _ ∙ ap (min size) (length-sort_by _ (filter (waiting min_score) rows))

  -- The job of the scheduler, as a function on the database and the world.
  unfoldable pub tick : Db × W → Db × W
  tick (db, w) = let s = run_once fmt now discord size min_score unlocked db w in (s.db, s.world)

  abbrev pub rows_of : Db × W → List RawEvent
  rows_of s = s.0.raw_events

  abbrev pub Sound : Db × W → Type 0
  Sound s = Distinct s.0.raw_events × All RowValid s.0.raw_events

  pub tick-Sound : (s : Db × W) → Sound s → Sound (tick s)
  unfolding tick
  tick-Sound (db, w) (d, v) = (
    run_once-Distinct fmt now discord size min_score unlocked db w d,
    run_once-RowValid fmt now discord size min_score unlocked db w v,
  )

  tick-total :
      1 ≤ size
      → (s : Db × W) → Sound s
      → total (waiting min_score) tries_left (rows_of (tick s))
        ≤ total (waiting min_score) tries_left (rows_of s) - 1
  unfolding tick run_once
  tick-total room (db, w) (d, v) =
      one_less (waiting min_score) tries_left db.raw_events _ size (λ r. omega arith) room
        (subst
          (λ n.
            total (waiting min_score) tries_left
                (run_once fmt now discord size min_score unlocked db w).db.raw_events
              + n
            ≤ total (waiting min_score) tries_left db.raw_events)
          (length-batch db.raw_events)
          (drain-total (λ t. t.db.raw_events) (process_event fmt now discord)
            (after fmt now discord) (process_event-writes fmt now discord) Ready
            (λ e t h. after-Edge fmt now discord e t (Ready-IsProcessed e h)) (waiting min_score)
            tries_left after_lighter (batch size min_score unlocked db.raw_events)
            (record { db = db; world = w; sent = 0 })
            (batch-Loaded size min_score unlocked db.raw_events d) (batch-Ready db.raw_events v)))

  Sound-heavy :
      (s : Db × W) → Sound s → All (λ r. waiting min_score r ≡ true → 1 ≤ tries_left r) (rows_of s)
  Sound-heavy (db, w) (d, v) =
      All-map (λ r valid t. omega (arith, waiting_try min_score r valid t)) db.raw_events v

  -- Enough runs leave no event that a run could send.
  pub ticks-settle :
      (n : ℕ) (db : Db) (w : W)
      → 1 ≤ size
      → Distinct db.raw_events
      → All RowValid db.raw_events
      → 3 * length (filter (waiting min_score) db.raw_events) ≤ n
      → filter (waiting min_score) (runs tick n (db, w)).0.raw_events ≡ []
  ticks-settle n db w room d v enough =
      runs-settle rows_of tick Sound tick-Sound (waiting min_score) tries_left (tick-total room)
        Sound-heavy (λ r. omega arith) n (db, w) (d, v) enough

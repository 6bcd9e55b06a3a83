-- ===== src/Notifier/Worker/Sizes.antt =====
-- The sizes of the rows after runs of src/argus/notifier/worker.py and src/argus/notifier/digest.py.
use argus_core.Common.{ℕ, Bool, true, false, [], ◌∷◌, arith, All, All-take, All-filter}
use argus_core.Common.Sort.{All-sort_by}
use mathlib.Core.Path.{subst}
use argus_core.Models.{RawEvent}
use argus_core.Store.{Db}
use argus_core.Lifecycle.{Carries}
use argus_core.Lifecycle.Drain.{drain-All}
use argus_core.Migrations.Typed.{Fits, Kept}
use argus_core.Notifier.Embeds.{FloatFormat, build_embed}
use argus_core.Notifier.Worker.{
  Discord, Session, delivered, refused, batch, process_event, run_once,
}
use argus_core.Notifier.Worker.Effects.{
  IsProcessed, row_of, after, process_event-writes, after-Edge, after-RowValid,
}
use argus_core.Notifier.Worker.Run.{batch-All, selected-IsProcessed}

pub delivered-Fits : (t : ℕ) (e : RawEvent) → Fits e → Fits (delivered t e)
unfolding delivered
delivered-Fits t e f = record {
  source = f.source;
  content_hash = f.content_hash;
  ticker = f.ticker;
  sentiment = f.sentiment;
  score = f.score;
  tries = f.tries;
}

refused-Fits : (e : RawEvent) → IsProcessed e → Kept e → Fits (refused e)
unfolding refused
refused-Fits e h (v, f) =
    let (few, _, _) = subst (λ s. Carries s e) h v.carries in
    record {
      source = f.source;
      content_hash = f.content_hash;
      ticker = f.ticker;
      sentiment = f.sentiment;
      score = f.score;
      tries = omega (arith, few);
    }

module _ {W : Type 0} (fmt : FloatFormat) (now : W → ℕ × W) (discord : Discord W) where
  row_of-Fits :
      (ok : Bool) (e : RawEvent) (w : W)
      → IsProcessed e
      → Kept e
      → Fits (row_of fmt now discord ok e w)
  unfolding row_of
  row_of-Fits true e w h (v, f) = delivered-Fits (now w).0 e f
  row_of-Fits false e w h k = refused-Fits e h k

  after-Kept :
      (e : RawEvent) (s : Session W) → IsProcessed e → Kept e → Kept (after fmt now discord e s)
  after-Kept e s h k =
      let (ok, w) = discord.send (build_embed fmt e ∷ []) s.world in
      (after-RowValid fmt now discord e s h k.0, unfold after in row_of-Fits ok e w h k)

  -- A run of the notifier writes only rows that fit.
  pub run_once-Kept :
      (size min_score : ℕ) (locked : ℕ → Bool) (db : Db) (w : W)
      → All Kept db.raw_events
      → All Kept (run_once fmt now discord size min_score locked db w).db.raw_events
  unfolding run_once batch
  run_once-Kept size min_score locked db w k =
      drain-All (λ s. s.db.raw_events) (process_event fmt now discord) (after fmt now discord)
        (process_event-writes fmt now discord) IsProcessed (after-Edge fmt now discord) Kept
        after-Kept (batch size min_score locked db.raw_events) _
        (batch-All size min_score locked db.raw_events IsProcessed
          (selected-IsProcessed min_score locked))
        (All-take Kept size _ (All-sort_by _ Kept _ (All-filter Kept _ db.raw_events k))) k

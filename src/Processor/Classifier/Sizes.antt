-- ===== src/Processor/Classifier/Sizes.antt =====
-- The sizes of what src/argus/processor/classifier.py writes into the row of an event.
use argus_core.Common.{ℕ, ◌+◌, ◌≤◌, ◌≡◌, refl, arith, length}
use argus_core.Common.Text.{Text}
use mathlib.Core.Path.{subst}
use argus_core.Models.{Status, RawEvent}
use argus_core.Store.{Db}
use argus_core.Unicode.{Unicode}
use argus_core.Lifecycle.{Carries, RowValid}
use argus_core.Llm.{
  ClassifyResult, Reply, answer, failure, LlmProvider, Worded, positive, negative, neutral,
  Validated, IsProvider,
}
use argus_core.Migrations.Typed.{Fits}
use argus_core.Processor.Filters.{Action, WatchlistFilter, pre_filter}
use argus_core.Processor.Classifier.{retried, llm_failed, classified, conclude, dispatch, classify}

-- A new row has been tried less than three times.
pub tried : (e : RawEvent) → e.status ≡ Status.new → RowValid e → e.retry_count + 1 ≤ 3
tried e h v = let (few, _, _) = subst (λ s. Carries s e) h v.carries in omega (arith, few)

pub retried-Fits : (e : RawEvent) → e.retry_count + 1 ≤ 3 → Fits e → Fits (retried e)
unfolding retried
retried-Fits e few f = record {
  source = f.source;
  content_hash = f.content_hash;
  ticker = f.ticker;
  sentiment = f.sentiment;
  score = f.score;
  tries = few;
}

llm_failed-Fits : (m : Text) (e : RawEvent) → e.retry_count + 1 ≤ 3 → Fits e → Fits (llm_failed m e)
unfolding llm_failed retried
llm_failed-Fits m e few f = record {
  source = f.source;
  content_hash = f.content_hash;
  ticker = f.ticker;
  sentiment = f.sentiment;
  score = f.score;
  tries = few;
}

Worded-le : (s : Text) → Worded s → length s ≤ 16
Worded-le s (positive e) = rw e (omega arith)
Worded-le s (negative e) = rw e (omega arith)
Worded-le s (neutral e) = rw e (omega arith)

classified-Fits :
    (r : ClassifyResult) (t : ℕ) (e : RawEvent)
    → Validated r.classification
    → Fits e
    → Fits (classified r t e)
unfolding classified
classified-Fits r t e v f = record {
  source = f.source;
  content_hash = f.content_hash;
  ticker = f.ticker;
  sentiment = Worded-le r.classification.sentiment v.worded;
  score = omega (arith, v.in_range);
  tries = f.tries;
}

module _ {W : Type 0} (u : Unicode) (now : W → ℕ × W) (filter : WatchlistFilter)
    (llm : LlmProvider W) where
  conclude-Fits :
      (r : Reply) (e : RawEvent) (db : Db) (w : W)
      → ((a : ClassifyResult) → r ≡ answer a → Validated a.classification)
      → e.retry_count + 1 ≤ 3
      → Fits e
      → Fits (conclude u now filter llm r e db w).event
  unfolding conclude
  conclude-Fits (failure m) e db w good few f = llm_failed-Fits m e few f
  conclude-Fits (answer r) e db w good few f = classified-Fits r (now w).0 e (good r refl) f

  module _ (p : IsProvider llm) where
    dispatch-Fits :
        (a : Action) (e : RawEvent) (db : Db) (w : W)
        → e.retry_count + 1 ≤ 3
        → Fits e
        → Fits (dispatch u now filter llm a e db w).event
    unfolding dispatch
    dispatch-Fits Action.skip e db w few f = record {
      source = f.source;
      content_hash = f.content_hash;
      ticker = f.ticker;
      sentiment = f.sentiment;
      score = f.score;
      tries = f.tries;
    }
    dispatch-Fits Action.classify e db w few f =
        let (reply, w') = llm.classify e w in conclude-Fits reply e db w' (p.validated e w) few f

    pub classify-Fits :
        (e : RawEvent) (db : Db) (w : W)
        → e.retry_count + 1 ≤ 3
        → Fits e
        → Fits (classify u now filter llm e db w).event
    unfolding classify
    classify-Fits e db w = dispatch-Fits (pre_filter u filter e).action e db w

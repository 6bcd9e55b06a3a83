-- ===== src/Processor/Classifier/Tries.antt =====
-- The retry counter of src/argus/processor/classifier.py: an event that is left new was tried.
use argus_core.Common.{ℕ, ◌<◌, ◌≡◌, arith}
use argus_core.Models.{Status, RawEvent}
use argus_core.Store.{Db}
use argus_core.Unicode.{Unicode}
use argus_core.Llm.{Reply, answer, failure, LlmProvider}
use argus_core.Processor.Filters.{Action, WatchlistFilter}
use argus_core.Processor.Classifier.{retried, llm_failed, classified, conclude, dispatch, classify}

module _ {W : Type 0} (u : Unicode) (now : W → ℕ × W) (filter : WatchlistFilter)
    (llm : LlmProvider W) where
  conclude_tried :
      (r : Reply) (e : RawEvent) (db : Db) (w : W)
      → (conclude u now filter llm r e db w).event.status ≡ Status.new
      → e.retry_count < (conclude u now filter llm r e db w).event.retry_count
  unfolding conclude llm_failed retried classified
  conclude_tried (failure m) e db w h = omega arith
  conclude_tried (answer r) e db w h = absurd (cc)

  dispatch_tried :
      (a : Action) (e : RawEvent) (db : Db) (w : W)
      → (dispatch u now filter llm a e db w).event.status ≡ Status.new
      → e.retry_count < (dispatch u now filter llm a e db w).event.retry_count
  unfolding dispatch
  dispatch_tried Action.skip e db w h = absurd (cc)
  dispatch_tried Action.classify e db w h =
      let (reply, w') = llm.classify e w in conclude_tried reply e db w' h

  -- An event that is new after the classifier has a higher retry counter.
  pub classify_tried :
      (e : RawEvent) (db : Db) (w : W)
      → (classify u now filter llm e db w).event.status ≡ Status.new
      → e.retry_count < (classify u now filter llm e db w).event.retry_count
  unfolding classify
  classify_tried e db w h = dispatch_tried _ e db w h

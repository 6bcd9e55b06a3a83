-- ===== src/Processor/Worker/Service.antt =====
-- The processor with its real parts, as src/argus/processor/main.py puts it together: the search
-- of dedup.py and the classifier of classifier.py.
use argus_core.Common.{ℕ, ◌≡◌, Bool, Option}
use argus_core.Models.{RawEvent}
use argus_core.Unicode.{Unicode}
use argus_core.Store.{Db}
use argus_core.Llm.{LlmProvider, IsProvider}
use argus_core.Processor.Filters.{WatchlistFilter}
use argus_core.Processor.Classifier.{classify}
use argus_core.Processor.Classifier.Laws.{classify-Conduct, classify_lem, classify-RowValid}
use argus_core.Processor.Classifier.Tries.{classify_tried}
use argus_core.Processor.Dedup.{find_duplicate}
use argus_core.Processor.Dedup.Original.{find_duplicate-Original}
use argus_core.Processor.Worker.{Lookup, found, Session, run_once}
use argus_core.Processor.Worker.Contract.{IsDuplicateSearch, IsClassifier}

found-injective : {a b : Option RawEvent} → found a ≡ found b → a ≡ b
found-injective h = cc

module _ {W : Type 0} (u : Unicode) (now : W → ℕ × W) where
  -- `find_duplicate(session, event)`, with the clock that it reads.
  pub search_duplicate : RawEvent → Db → W → Lookup × W
  search_duplicate e db w = let (t, w') = now w in (found (find_duplicate u t e db.raw_events), w')

  -- The search for duplicates of the service keeps to the contract that the worker asks of it, at
  -- whatever time the clock shows.
  pub search_duplicate-IsDuplicateSearch : IsDuplicateSearch search_duplicate
  unfolding search_duplicate
  search_duplicate-IsDuplicateSearch = record {
    original = λ e db w c d h.
        let o = find_duplicate-Original u (now w).0 e db.raw_events c d (found-injective h) in
        (o.there, o.live_status, o.other);
  }

  module _ (filter : WatchlistFilter) (llm : LlmProvider W) where
    -- With an LLM provider that validates its results, the classifier of the service keeps to the
    -- contract that the worker asks of a classifier.
    pub classify-IsClassifier : IsProvider llm → IsClassifier (classify u now filter llm)
    classify-IsClassifier p = record {
      same_rows = λ e db w. (classify-Conduct u now filter llm e db w).same_rows;
      same_notifications = λ e db w. (classify-Conduct u now filter llm e db w).same_notifications;
      edge = λ e db w h. (classify_lem u now filter llm e db w h).0;
      valid = classify-RowValid u now filter llm p;
      raised_new = λ e db w h r. cc ((classify-Conduct u now filter llm e db w).quiet, r);
      tried = λ e db w quiet. classify_tried u now filter llm e db w;
      recorded = λ e db w. (classify-Conduct u now filter llm e db w).recorded;
      same_original = λ e db w. (classify-Conduct u now filter llm e db w).same_original;
    }

    -- `ProcessorWorker.run_once` of the service that main.py puts together.
    unfoldable pub processor_run : ℕ → (ℕ → Bool) → Db → W → Session W
    processor_run = run_once search_duplicate (classify u now filter llm)

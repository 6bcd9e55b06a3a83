-- ===== src/Tests/Processing.antt =====
-- The theorems on the processor, applied to the sample news.
use argus_core.Common.{ℕ, ◌≡◌, refl, none, All}
use argus_core.Models.{Status, RawEvent, new_event}
use argus_core.Store.{Db, All-find}
use argus_core.Lifecycle.{Edge, Evolves}
use argus_core.Lifecycle.Resolution.{original, AllResolve}
use argus_core.Unicode.{ascii}
use argus_core.Processor.Classifier.{Call, classify}
use argus_core.Processor.Classifier.Laws.{Conduct, classify_lem}
use argus_core.Processor.Worker.{Lookup, run_once}
use argus_core.Processor.Worker.Contract.{IsDuplicateSearch, IsClassifier}
use argus_core.Processor.Worker.Service.{
  search_duplicate, search_duplicate-IsDuplicateSearch, classify-IsClassifier,
}
use argus_core.Processor.Worker.Run.{run_once-Evolves}
use argus_core.Processor.Worker.Resolution.{run_once-AllResolve}
use argus_core.Tests.Samples.{
  clock, nobody, first_new, news, news_db, news-Distinct, news-RowValid, watch, llm, llm-IsProvider,
}

abbrev search : RawEvent → Db → ℕ → Lookup × ℕ
search = search_duplicate ascii clock

abbrev classifier : RawEvent → Db → ℕ → Call ℕ
classifier = classify ascii clock watch llm

classifier-IsClassifier : IsClassifier classifier
classifier-IsClassifier = classify-IsClassifier ascii clock watch llm llm-IsProvider

search-IsDuplicateSearch : IsDuplicateSearch search
search-IsDuplicateSearch = search_duplicate-IsDuplicateSearch ascii clock

run_once-Evolves_example :
    Evolves news (run_once search classifier 20 nobody news_db 0).db.raw_events
run_once-Evolves_example =
    run_once-Evolves search classifier classifier-IsClassifier 20 nobody news_db 0 news-Distinct

news_plain : All (λ r. r.duplicate_of ≡ none) news
unfolding new_event
news_plain = (refl, (refl, (refl, tt)))

news-AllResolve : AllResolve news
news-AllResolve = record {
  at = λ i r h. original i r h (All-find (λ x. x.duplicate_of ≡ none) i news r h news_plain);
}

run_once-AllResolve_example :
    AllResolve (run_once search classifier 20 nobody news_db 0).db.raw_events
run_once-AllResolve_example =
    run_once-AllResolve search classifier search-IsDuplicateSearch classifier-IsClassifier 20 nobody
      news_db 0 news-Distinct news-RowValid news-AllResolve

first_is_new : first_new.status ≡ Status.new
unfolding new_event
first_is_new = refl

classify_example :
    Edge first_new (classify ascii clock watch llm first_new news_db 0).event
    × Conduct ascii clock watch llm first_new news_db
        (classify ascii clock watch llm first_new news_db 0)
classify_example = classify_lem ascii clock watch llm first_new news_db 0 first_is_new

classify-IsClassifier_example : IsClassifier (classify ascii clock watch llm)
classify-IsClassifier_example = classify-IsClassifier ascii clock watch llm llm-IsProvider

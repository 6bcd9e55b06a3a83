-- ===== src/Tests/Samples.antt =====
-- Sample rows, a database, and the surroundings of the services: a world that is a counter, which is
-- the clock and the source of ids.
use mathlib.Core.Path.{subst}
use argus_core.Common.{
  ℕ, suc, ◌+◌, ◌≡◌, refl, Bool, true, false, List, [], ◌∷◌, Option, none, some, arith, All,
}
use argus_core.Common.Text.{Text, codes, decimal}
use argus_core.Models.{Status, RawEvent, Draft, new_event}
use argus_core.Store.{Db, empty, Distinct}
use argus_core.Lifecycle.{RowValid}
use argus_core.Llm.{ClassifyResult, answer, LlmProvider, IsProvider, Worded, Validated}
use argus_core.Notifier.Embeds.{FloatFormat}
use argus_core.Notifier.Worker.{Discord}
use argus_core.Poll.{Sources}
use argus_core.Processor.Filters.{WatchlistFilter}

abbrev pub at_noon : ℕ
at_noon = 200000000000

-- The world is the number of calls that have been made of it.
abbrev pub clock : ℕ → ℕ × ℕ
clock w = (at_noon + w, suc w)

abbrev pub counter : ℕ → ℕ × ℕ
counter w = (100 + w, suc w)

abbrev pub sources : Sources ℕ
sources = record { now = clock; fresh = counter }

abbrev pub nobody : ℕ → Bool
nobody i = false

abbrev pub draft_of : Text → Text → Option Text → Draft
draft_of guid title ticker = record {
  source = codes "rss";
  external_id = guid;
  content_hash = [];
  ticker = ticker;
  title = title;
  body = codes "news";
  url = codes "https://example.org";
  poller_meta = none;
}

-- Two new events with one headline, and one that nobody watches.
abbrev pub first_new : RawEvent
first_new =
    new_event 1 at_noon (draft_of (codes "a") (codes "FDA clears drug") (some (codes "PFE")))

abbrev pub second_new : RawEvent
second_new =
    new_event 2 (at_noon + 1) (draft_of (codes "b") (codes "FDA clears drug!") (some (codes "PFE")))

abbrev pub third_new : RawEvent
third_new = new_event 3 (at_noon + 2) (draft_of (codes "c") (codes "Weather") none)

abbrev pub news : List RawEvent
news = first_new ∷ second_new ∷ third_new ∷ []

abbrev pub news_db : Db
news_db = record empty { raw_events = news }

pub news-Distinct : Distinct news
unfolding new_event
news-Distinct =
    (((λ p. ground arith), ((λ p. ground arith), tt)), (((λ p. ground arith), tt), (tt, tt)))

pub news-RowValid : All RowValid news
unfolding new_event
news-RowValid = (
  record { carries = (omega arith, refl, refl) },
  (
    record { carries = (omega arith, refl, refl) },
    (record { carries = (omega arith, refl, refl) }, tt),
  ),
)

-- Two events that the LLM has scored.
abbrev pub scored : ℕ → ℕ → RawEvent
scored id score =
    record (new_event id at_noon (draft_of (codes "d") (codes "Merger") (some (codes "PFE")))) {
      status = Status.processed;
      relevance_score = some score;
    }

abbrev pub ranked : List RawEvent
ranked = scored 1 95 ∷ scored 2 80 ∷ []

abbrev pub ranked_db : Db
ranked_db = record empty { raw_events = ranked }

pub ranked-Distinct : Distinct ranked
unfolding new_event
ranked-Distinct = (((λ p. ground arith), tt), (tt, tt))

abbrev pub watch : WatchlistFilter
watch = record { tickers = codes "PFE" ∷ []; keywords = codes "fda" ∷ [] }

abbrev pub verdict : ClassifyResult
verdict = record {
  classification = record {
    sentiment = codes "positive";
    relevance_score = 92;
    summary = codes "Drug cleared";
  };
  meta = record {
    provider = codes "deepseek";
    model = codes "deepseek-chat";
    prompt_tokens = 300;
    completion_tokens = 40;
    cost_usd = 90;
    latency_ms = 800;
  };
}

abbrev pub llm : LlmProvider ℕ
llm = record { classify = λ e w. (answer verdict, suc w) }

score_of_answer : (r : ClassifyResult) → answer verdict ≡ answer r → verdict ≡ r
score_of_answer r h = cc

pub llm-IsProvider : IsProvider llm
llm-IsProvider = record {
  validated = λ e w r h.
      subst (λ x. Validated x.classification) (score_of_answer r h)
        (record { worded = Worded.positive refl; in_range = omega arith; brief = omega arith });
}

abbrev pub plain_format : FloatFormat
plain_format = record { millions = decimal; thousands = decimal; grouped = decimal }

-- A webhook that accepts, and one that refuses.
abbrev pub accepting : Discord ℕ
accepting = record { send = λ embeds w. (true, suc w) }

abbrev pub refusing : Discord ℕ
refusing = record { send = λ embeds w. (false, suc w) }

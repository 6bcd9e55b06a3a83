-- ===== src/Processor/Classifier.antt =====
-- src/argus/processor/classifier.py: the pre-filter and the LLM call for one event.
pub mod Laws
pub mod Tries
pub mod Sizes
use argus_core.Common.{
  ℕ, not, ◌&&◌, ◌+◌, ◌≤◌, ◌≡◌, refl, Bool, true, false, List, [], ◌∷◌, ◌++◌, Option, none, some,
  arith, leb, if◌then◌else◌,
}
use argus_core.Common.Text.{Text}
use argus_core.Models.{Status, status_eq, RawEvent, LlmCall}
use argus_core.Store.{Db, add_llm_call}
use argus_core.Unicode.{Unicode}
use argus_core.Llm.{ClassifyResult, Reply, answer, failure, LlmProvider}
use argus_core.Processor.Filters.{Action, PreFilterResult, WatchlistFilter, pre_filter}

-- How a call of `classify(session, event)` ended: the event and the session as it left them, and
-- whether it raised.
pub record Call (W : Type 0) : Type 0 where
  pub raised : Bool
  pub event : RawEvent
  pub db : Db
  pub world : W

-- 1 for a call that ended with a processed event.
abbrev pub billed : {W : Type 0} → Call W → ℕ
billed c = if not c.raised && status_eq c.event.status Status.processed then 1 else 0

-- `event.status = "failed" if event.retry_count >= 3 else "new"`, after the bump.
unfoldable pub retried : RawEvent → RawEvent
retried e = record e {
  retry_count = e.retry_count + 1;
  status = if leb 3 (e.retry_count + 1) then Status.failed else Status.new;
}

pub llm_failed : Text → RawEvent → RawEvent
unfolding retried
llm_failed message e = record (retried e) { error_message = some message }

pub classified : ClassifyResult → ℕ → RawEvent → RawEvent
classified r now e = record e {
  relevance_score = some r.classification.relevance_score;
  sentiment = some r.classification.sentiment;
  llm_summary = some r.classification.summary;
  llm_classified_at = some now;
  status = Status.processed;
}

abbrev pub call_of : ClassifyResult → RawEvent → LlmCall
call_of r e = record {
  event_id = e.id;
  provider = r.meta.provider;
  model = r.meta.model;
  prompt_tokens = r.meta.prompt_tokens;
  completion_tokens = r.meta.completion_tokens;
  cost_usd = r.meta.cost_usd;
  latency_ms = r.meta.latency_ms;
}

module _ {W : Type 0} (u : Unicode) (now : W → ℕ × W) (filter : WatchlistFilter)
    (llm : LlmProvider W) where
  conclude : Reply → RawEvent → Db → W → Call W
  conclude (failure message) e db w = record {
    raised = false;
    event = llm_failed message e;
    db = db;
    world = w;
  }
  conclude (answer r) e db w =
      let (t, w') = now w in
      record {
        raised = false;
        event = classified r t e;
        db = add_llm_call (call_of r e) db;
        world = w';
      }

  dispatch : Action → RawEvent → Db → W → Call W
  unfolding conclude
  dispatch Action.skip e db w = record {
    raised = false;
    event = record e { status = Status.skipped };
    db = db;
    world = w;
  }
  dispatch Action.classify e db w = let (reply, w') = llm.classify e w in conclude reply e db w'

  -- `Classifier.classify`.
  pub classify : RawEvent → Db → W → Call W
  unfolding dispatch
  classify e db w = dispatch (pre_filter u filter e).action e db w

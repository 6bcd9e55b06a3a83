-- ===== src/Llm.antt =====
-- src/argus/llm/base.py and the data of src/argus/llm/prompts.py: what an LLM provider is to the
-- processor. A provider talks to the outside, so a call takes the state of the world and returns
-- the next one.
pub mod Json
pub mod Prompts
pub mod Providers
pub mod Responses
use argus_core.Common.{ℕ, ◌≤◌, ◌≡◌, length}
use argus_core.Common.Text.{Text, codes}
use argus_core.Models.{RawEvent}

pub record Classification : Type 0 where
  pub sentiment : Text
  pub relevance_score : ℕ
  pub summary : Text

pub record LlmCallMeta : Type 0 where
  pub provider : Text
  pub model : Text
  pub prompt_tokens : ℕ
  pub completion_tokens : ℕ
  pub cost_usd : ℕ
  pub latency_ms : ℕ

pub record ClassifyResult : Type 0 where
  pub classification : Classification
  pub meta : LlmCallMeta

-- A result, or an exception with its text.
pub data Reply : Type 0 where
  answer : ClassifyResult → Reply
  failure : Text → Reply

-- The protocol `LLMProvider`.
pub record LlmProvider (W : Type 0) : Type 0 where
  pub classify : RawEvent → W → Reply × W

-- The three words that a sentiment can be.
pub data Worded (s : Text) : Type 0 where
  positive : s ≡ codes "positive" → Worded s
  negative : s ≡ codes "negative" → Worded s
  neutral : s ≡ codes "neutral" → Worded s

-- What the constraints of `Classification` leave.
pub record Validated (c : Classification) : Type 0 where
  pub worded : Worded c.sentiment
  pub in_range : c.relevance_score ≤ 100
  pub brief : length c.summary ≤ 120

-- The contract: a result has been validated.
pub record IsProvider {W : Type 0} (llm : LlmProvider W) : Type 0 where
  pub validated :
      (e : RawEvent) (w : W) (r : ClassifyResult)
      → (llm.classify e w).0 ≡ answer r
      → Validated r.classification

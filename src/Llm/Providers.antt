-- ===== src/Llm/Providers.antt =====
-- src/argus/llm/deepseek.py and src/argus/llm/gemini.py, which are the same but for the shape of the
-- request, the keys of the response and the prices. The HTTP call is a parameter: it takes the user
-- prompt, and gives the content and the usage of the response or raises. Times are in microseconds.
pub mod Agreement
pub mod Contract
use argus_core.Common.{
  ℕ, ◌+◌, ◌-◌, ◌*◌, ◌/◌, ◌≤◌, ◌≡◌, refl, ◌++◌, Option, none, some, Option-cases, inl, inr,
  if◌then◌else◌,
}
use mathlib.Core.Path.{subst}
use argus_core.Common.Text.{Text, codes, text_eq, truthy}
use argus_core.Llm.{Classification, ClassifyResult, Reply, answer, failure, LlmProvider, IsProvider}
use argus_core.Llm.Prompts.{build_user_prompt, Fields, model_validate}

-- A provider, with its prices for a million tokens in cents.
pub record Provider : Type 0 where
  pub name : Text
  pub model : Text
  pub input_cost_per_m : ℕ
  pub output_cost_per_m : ℕ

abbrev pub deepseek : Provider
deepseek = record {
  name = codes "deepseek";
  model = codes "deepseek-chat";
  input_cost_per_m = 14;
  output_cost_per_m = 28;
}

abbrev pub gemini : Provider
gemini = record {
  name = codes "gemini";
  model = codes "gemini-2.5-flash";
  input_cost_per_m = 30;
  output_cost_per_m = 250;
}

-- The part of `Settings` that chooses the provider.
pub record ProviderSettings : Type 0 where
  pub llm_provider : Text
  pub deepseek_api_key : Option Text
  pub deepseek_model : Text
  pub gemini_api_key : Option Text
  pub gemini_model : Text

-- `create_provider` of src/argus/llm/__init__.py; `none` is a ValueError. The key itself is only a header.
pub create_provider : ProviderSettings → Option Provider
create_provider s =
    if text_eq s.llm_provider (codes "deepseek")
    then (if truthy s.deepseek_api_key
        then some (record deepseek { model = s.deepseek_model })
        else none)
    else if text_eq s.llm_provider (codes "gemini")
    then (if truthy s.gemini_api_key then some (record gemini { model = s.gemini_model }) else none)
    else none

pub record Usage : Type 0 where
  pub prompt_tokens : ℕ
  pub completion_tokens : ℕ

-- What is read of a response: the content, and the token counts; `none` means that reading or pricing
-- them raises.
pub record Completion : Type 0 where
  pub content : Text
  pub usage : Option Usage

-- `raised` is an exception of the call or of the lookup of the content.
pub data Called : Type 0 where
  answered : Completion → Called
  raised : Text → Called

abbrev pub retry_prompt : Text → Text
retry_prompt prompt =
    codes "Previous response was not valid JSON. "
    ++ (codes "Please respond with valid JSON only.\n\n" ++ prompt)

-- The surroundings: `time.monotonic`, `_call`, `json.loads` (`none` is a JSONDecodeError), the text of the
-- error that a content is refused with, and that of an error in the token counts.
pub record Service (W : Type 0) : Type 0 where
  pub monotonic : W → ℕ × W
  pub call : Text → W → Called × W
  pub loads : Text → Option Fields
  pub complaint : Text → Text
  pub usage_error : Text

module _ {W : Type 0} (p : Provider) (env : Service W) where
  -- The `try` block.
  unfoldable pub parsed : Text → Option Classification
  parsed content = elim (env.loads content) [ none ↦ none | some f ↦ model_validate f ]

  -- The result, with the cost in hundredths of a millionth of a dollar.
  unfoldable pub result_of : Classification → Usage → ℕ → ClassifyResult
  result_of c u latency = record {
    classification = c;
    meta = record {
      provider = p.name;
      model = p.model;
      prompt_tokens = u.prompt_tokens;
      completion_tokens = u.completion_tokens;
      cost_usd = u.prompt_tokens * p.input_cost_per_m + u.completion_tokens * p.output_cost_per_m;
      latency_ms = latency;
    };
  }

  -- What follows a content that is valid.
  unfoldable pub priced : Classification → Option Usage → ℕ → Reply
  unfolding result_of
  priced c none latency = failure env.usage_error
  priced c (some u) latency = answer (result_of c u latency)

  settle : Option Classification → Completion → ℕ → Reply × W → W → Reply × W
  unfolding priced
  settle (some c) r latency other w = (priced c r.usage latency, w)
  settle none r latency other w = other

  heard : Called → ℕ → (Completion → W → Reply × W) → W → Reply × W
  unfolding settle parsed
  heard (raised m) t other w = (failure m, w)
  heard (answered r) t other w =
      let (t', w') = env.monotonic w in
      settle (parsed r.content) r ((t' - t) / 1000) (other r w') w'

  -- One round of the loop; `other` is what follows a content that is refused.
  attempt : Text → (Completion → W → Reply × W) → W → Reply × W
  unfolding heard
  attempt prompt other w =
      let (t, w') = env.monotonic w in let (c, w'') = env.call prompt w' in heard c t other w''

  refuse : Completion → W → Reply × W
  refuse r w = (failure (codes "LLM returned invalid JSON twice: " ++ env.complaint r.content), w)

  -- The loop over `range(2)`.
  pub ask : Text → W → Reply × W
  unfolding attempt refuse
  ask prompt w = attempt prompt (λ _ w'. attempt (retry_prompt prompt) refuse w') w

  -- `classify(event)`.
  abbrev pub provider : LlmProvider W
  provider = record { classify = λ event w. ask (build_user_prompt event none) w }

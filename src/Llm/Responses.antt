-- ===== src/Llm/Responses.antt =====
-- The requests and the responses of src/argus/llm/deepseek.py and src/argus/llm/gemini.py, and their `_call`,
-- a POST under `with_retry`. What the service answers to the n-th request is a parameter.
pub mod Bodies
use argus_core.Common.{ℕ, ◌≡◌, refl, true, false, [], ◌++◌, Option, none, some, if◌then◌else◌}
use argus_core.Common.Text.{Text, codes, text_eq}
use argus_core.Retry.{Outcome}
use argus_core.Http.{Attempt, Result, ok, http_error, exception, default_retry, with_retry}
use argus_core.Llm.Json.{
  Json, text, boolean, array, object, Items, end, item, Members, done, member, lookup, at_key,
  at_zero, as_text, count_at,
}
use argus_core.Llm.Prompts.{Fields}
use argus_core.Llm.{LlmProvider}
use argus_core.Llm.Providers.{
  Provider, provider, deepseek, gemini, Usage, Completion, Called, answered, raised, Service,
}

-- SYSTEM_PROMPT.
abbrev pub system_prompt : Text
system_prompt =
    codes "You are ArgusCore, a market intelligence classifier for insider filings and\n"
    ++ (codes "financial news. You receive a single event and return strict JSON.\n\n"
        ++ (codes "Scoring rubric (0-100):\n"
            ++ (codes
                  "- 90-100: Material insider action (CEO/CFO buy >= $500k, FDA approval, M&A)\n"
                ++ (codes
                      "- 70-89:  Notable but expected (regular insider activity, earnings beats)\n"
                    ++ (codes "- 50-69:  Minor relevance (analyst rating, sector news)\n"
                        ++ (codes "- 0-49:   Noise (routine filings, low-impact news)\n\n"
                            ++ (codes "Sentiment: positive | negative | neutral\n"
                                ++ (codes
                                      "Summary: 1 sentence, English, <=120 chars, lead with the action.\n\n"
                                    ++ codes
                                        "Respond ONLY with valid JSON. No markdown, no preamble.\n"))))))))

-- A list and a dict of one value, and a text as a value.
abbrev one : Json → Json
one j = array (item j end)

abbrev only : Text → Json → Json
only key j = object (member key j done)

abbrev message : Text → Text → Json
message role said =
    object (member (codes "role") (text role) (member (codes "content") (text said) done))

-- The payload of DeepSeek, and that of Gemini.
abbrev pub deepseek_payload : Text → Text → Json
deepseek_payload model prompt = object (
    member (codes "model") (text model) (
      member (codes "messages")
        (array (
          item (message (codes "system") system_prompt) (item (message (codes "user") prompt) end)))
        (member (codes "response_format") (only (codes "type") (text (codes "json_object")))
          (member (codes "stream") (boolean false) done))))

abbrev pub gemini_payload : Text → Json
gemini_payload prompt = object (
    member (codes "system_instruction")
      (only (codes "parts") (one (only (codes "text") (text system_prompt))))
      (member (codes "contents")
        (one (
          object (
            member (codes "role") (text (codes "user"))
              (member (codes "parts") (one (only (codes "text") (text prompt))) done))))
        (member (codes "generationConfig")
          (only (codes "responseMimeType") (text (codes "application/json"))) done)))

-- `body["choices"][0]["message"]["content"]`.
unfoldable pub deepseek_content : Json → Option Text
unfolding at_key at_zero as_text
deepseek_content body = as_text (
    at_key (codes "content")
      (at_key (codes "message") (at_zero (at_key (codes "choices") (some body)))))

-- `body["candidates"][0]["content"]["parts"][0]["text"]`.
unfoldable pub gemini_content : Json → Option Text
unfolding at_key at_zero as_text
gemini_content body = as_text (
    at_key (codes "text") (
      at_zero (
        at_key (codes "parts")
          (at_key (codes "content") (at_zero (at_key (codes "candidates") (some body)))))))

both : Option ℕ → Option ℕ → Option Usage
both (some p) (some c) = some (record { prompt_tokens = p; completion_tokens = c })
both _ _ = none

-- The counts of `usage`, under the keys of the provider; a missing `usage` is `{}`.
counts : Text → Text → Option Json → Option Usage
unfolding both count_at
counts prompt_key completion_key none = some (record { prompt_tokens = 0; completion_tokens = 0 })
counts prompt_key completion_key (some (object ms)) =
    both (count_at prompt_key ms) (count_at completion_key ms)
counts prompt_key completion_key _ = none

unfoldable pub deepseek_usage : Json → Option Usage
unfolding counts at_key
deepseek_usage body =
    counts (codes "prompt_tokens") (codes "completion_tokens") (at_key (codes "usage") (some body))

unfoldable pub gemini_usage : Json → Option Usage
unfolding counts at_key
gemini_usage body =
    counts (codes "promptTokenCount") (codes "candidatesTokenCount")
      (at_key (codes "usageMetadata") (some body))

-- What a provider sends, and what it reads of a response.
pub record Format : Type 0 where
  pub payload : Text → Json
  pub content : Json → Option Text
  pub usage : Json → Option Usage

abbrev pub deepseek_format : Text → Format
deepseek_format model = record {
  payload = deepseek_payload model;
  content = deepseek_content;
  usage = deepseek_usage;
}

abbrev pub gemini_format : Format
gemini_format = record { payload = gemini_payload; content = gemini_content; usage = gemini_usage }

-- The surroundings of `_call`: what the service answers to the requests with a payload, the world after
-- them, and the texts of the errors.
pub record Endpoint (W : Type 0) : Type 0 where
  pub answers : Json → W → ℕ → Attempt Json
  pub after : Json → W → W
  pub status_text : ℕ → Text
  pub lookup_error : Json → Text

module _ {W : Type 0} (jitter : ℕ → ℕ) (f : Format) (env : Endpoint W) where
  read_body : Json → Called
  read_body body = elim (f.content body) [
    | some t ↦ answered (record { content = t; usage = f.usage body })
    | none ↦ raised (env.lookup_error body)
  ]

  read_result : Result Json → Called
  unfolding read_body
  read_result (ok body) = read_body body
  read_result (http_error s) = raised (env.status_text s)
  read_result (exception m) = raised m

  -- The outcome of `_call`, which always has one.
  concluded : Option (Outcome (Result Json)) → Called
  unfolding read_result
  concluded none = raised []
  concluded (some o) = read_result o.value

  -- `await self._call(payload)`, and the lookups in what it returns.
  unfoldable pub call : Text → W → Called × W
  unfolding concluded
  call prompt w = (
    concluded (with_retry default_retry jitter (env.answers (f.payload prompt) w)),
    env.after (f.payload prompt) w,
  )

-- The providers over HTTP: `classify` of each class.
module _ {W : Type 0} (jitter : ℕ → ℕ) (model : Text) (surroundings : Service W)
    (env : Endpoint W) where
  abbrev pub deepseek_provider : LlmProvider W
  deepseek_provider =
      provider (record deepseek { model = model })
        (record surroundings { call = call jitter (deepseek_format model) env })

  abbrev pub gemini_provider : LlmProvider W
  gemini_provider =
      provider (record gemini { model = model })
        (record surroundings { call = call jitter gemini_format env })

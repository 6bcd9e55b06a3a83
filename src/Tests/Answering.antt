-- ===== src/Tests/Answering.antt =====
-- The theorem on the LLM providers, applied to a service whose first answer is refused.
use argus_core.Common.{refl, ℕ, suc, [], ◌∷◌, Option, some, none, ◌==◌, if◌then◌else◌}
use argus_core.Common.Text.{Text, codes, text_eq}
use argus_core.Llm.{IsProvider}
use argus_core.Llm.Prompts.{Fields}
use argus_core.Llm.Providers.{Service, Called, answered, deepseek, provider}
use argus_core.Llm.Providers.Contract.{provider-IsProvider}
use argus_core.Http.{returned}
use argus_core.Llm.Providers.Agreement.{SameCall}
use argus_core.Llm.Json.{text, number, array, object, end, item, Members, done, member, lookup}
use argus_core.Llm.Responses.{Endpoint, deepseek_provider, gemini_provider}
use argus_core.Llm.Responses.Bodies.{DeepseekSays, GeminiSays, providers_agree}
use argus_core.Tests.Samples.{clock, first_new}

abbrev answer_at : Text → ℕ → Called × ℕ
answer_at prompt w = (
  answered (record {
    content = if w == 1 then [] else codes "{}";
    usage = some (record { prompt_tokens = 300; completion_tokens = 40 });
  }),
  suc w,
)

abbrev fields_of : Text → Option Fields
fields_of [] = none
fields_of (c ∷ t) = some (record {
  sentiment = some (codes "neutral");
  relevance_score = some 55;
  summary = some (codes "Drug cleared");
})

abbrev service : Service ℕ
service = record {
  monotonic = clock;
  call = answer_at;
  loads = fields_of;
  complaint = λ t. t;
  usage_error = [];
}

provider-IsProvider_example : IsProvider (provider deepseek service)
provider-IsProvider_example = provider-IsProvider deepseek service

-- Two services that answer every prompt at once, with a verdict that depends on the world.
abbrev said_at : Text → ℕ → Text
said_at prompt w = if w == 1 then [] else codes "{}"

abbrev tokens : Text → ℕ → ℕ
tokens prompt w = 300

-- Bodies with more in them than the providers read.
abbrev deepseek_message : Text → Members
deepseek_message t =
    member (codes "role") (text (codes "assistant")) (member (codes "content") (text t) done)

abbrev deepseek_counts : Members
deepseek_counts = member (codes "prompt_tokens") (number 300) (
    member (codes "completion_tokens") (number 300)
      (member (codes "total_tokens") (number 600) done))

abbrev deepseek_choice : Text → Members
deepseek_choice t =
    member (codes "index") (number 0) (member (codes "message") (object (deepseek_message t)) done)

abbrev deepseek_members : Text → Members
deepseek_members t = member (codes "id") (text (codes "a1")) (
    member (codes "choices") (array (item (object (deepseek_choice t)) end))
      (member (codes "usage") (object deepseek_counts) done))

abbrev gemini_part : Text → Members
gemini_part t = member (codes "text") (text t) done

abbrev gemini_content : Text → Members
gemini_content t =
    member (codes "role") (text (codes "model"))
      (member (codes "parts") (array (item (object (gemini_part t)) end)) done)

abbrev gemini_counts : Members
gemini_counts =
    member (codes "promptTokenCount") (number 300)
      (member (codes "candidatesTokenCount") (number 300) done)

abbrev gemini_members : Text → Members
gemini_members t =
    member (codes "candidates")
      (array (item (object (member (codes "content") (object (gemini_content t)) done)) end))
      (member (codes "usageMetadata") (object gemini_counts) done)

deepseek_says : (t : Text) → DeepseekSays (object (deepseek_members t)) t 300 300
unfolding lookup text_eq
deepseek_says t = record {
  body = deepseek_members t;
  choice = deepseek_choice t;
  message = (deepseek_message t);
  usage = deepseek_counts;
  others = end;
  is_object = refl;
  has_choices = refl;
  has_message = refl;
  has_content = refl;
  has_usage = refl;
  has_prompt = refl;
  has_completion = refl;
}

gemini_says : (t : Text) → GeminiSays (object (gemini_members t)) t 300 300
unfolding lookup text_eq
gemini_says t = record {
  body = gemini_members t;
  candidate = member (codes "content") (object (gemini_content t)) done;
  content = gemini_content t;
  part = gemini_part t;
  usage = gemini_counts;
  others = end;
  others' = end;
  is_object = refl;
  has_candidates = refl;
  has_content = refl;
  has_parts = refl;
  has_text = refl;
  has_usage = refl;
  has_prompt = refl;
  has_completion = refl;
}

abbrev deepseek_up : Endpoint ℕ
deepseek_up = record {
  answers = λ body w n. returned (object (deepseek_members (said_at [] w)));
  after = λ body w. suc w;
  status_text = λ s. [];
  lookup_error = λ body. [];
}

abbrev gemini_up : Endpoint ℕ
gemini_up = record {
  answers = λ body w n. returned (object (gemini_members (said_at [] w)));
  after = λ body w. suc w;
  status_text = λ s. [];
  lookup_error = λ body. [];
}

abbrev no_jitter : ℕ → ℕ
no_jitter n = 0

providers_agree_example :
    SameCall
      ((deepseek_provider no_jitter (codes "deepseek-chat") service deepseek_up).classify first_new
        0)
      ((gemini_provider no_jitter (codes "gemini-2.5-flash") service gemini_up).classify first_new
        0)
providers_agree_example =
    providers_agree no_jitter (codes "deepseek-chat") (codes "gemini-2.5-flash") service deepseek_up
      gemini_up (λ prompt w. object (deepseek_members (said_at prompt w)))
      (λ prompt w. object (gemini_members (said_at prompt w))) said_at tokens tokens
      (λ prompt w. refl) (λ prompt w. refl) (λ prompt w. deepseek_says (said_at prompt w))
      (λ prompt w. gemini_says (said_at prompt w)) (λ prompt w. refl) first_new 0

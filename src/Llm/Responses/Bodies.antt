-- ===== src/Llm/Responses/Bodies.antt =====
-- The two services of src/argus/llm side by side: bodies of their formats that say the same.
use argus_core.Common.{ℕ, ◌≡◌, refl, ap, ◌∙◌, sym, none, some}
use argus_core.Common.Text.{Text, codes}
use argus_core.Http.{returned, default_retry, with_retry_once}
use argus_core.Llm.Json.{
  Json, text, number, array, object, Items, item, Members, lookup, at_key, at_zero, as_text,
  as_count, count_at,
}
use argus_core.Models.{RawEvent}
use argus_core.Llm.Prompts.{build_user_prompt}
use argus_core.Llm.Providers.{Completion, answered, Service, deepseek, gemini}
use argus_core.Llm.Providers.Agreement.{SameCall, calls_agree}
use argus_core.Llm.Responses.{
  deepseek_provider, gemini_provider, Format, Endpoint, call, deepseek_format, gemini_format,
  deepseek_payload, gemini_payload, deepseek_content, deepseek_usage, gemini_content, gemini_usage,
  counts, both, concluded, read_body, read_result,
}

-- A body of DeepSeek says a text and two counts, next to any other members and items.
pub record DeepseekSays (j : Json) (t : Text) (a b : ℕ) : Type 0 where
  pub body : Members
  pub choice : Members
  pub message : Members
  pub usage : Members
  pub others : Items
  pub is_object : j ≡ object body
  pub has_choices : lookup (codes "choices") body ≡ some (array (item (object choice) others))
  pub has_message : lookup (codes "message") choice ≡ some (object message)
  pub has_content : lookup (codes "content") message ≡ some (text t)
  pub has_usage : lookup (codes "usage") body ≡ some (object usage)
  pub has_prompt : lookup (codes "prompt_tokens") usage ≡ some (number a)
  pub has_completion : lookup (codes "completion_tokens") usage ≡ some (number b)

-- A body of Gemini does.
pub record GeminiSays (j : Json) (t : Text) (a b : ℕ) : Type 0 where
  pub body : Members
  pub candidate : Members
  pub content : Members
  pub part : Members
  pub usage : Members
  pub others : Items
  pub others' : Items
  pub is_object : j ≡ object body
  pub has_candidates :
      lookup (codes "candidates") body ≡ some (array (item (object candidate) others))
  pub has_content : lookup (codes "content") candidate ≡ some (object content)
  pub has_parts : lookup (codes "parts") content ≡ some (array (item (object part) others'))
  pub has_text : lookup (codes "text") part ≡ some (text t)
  pub has_usage : lookup (codes "usageMetadata") body ≡ some (object usage)
  pub has_prompt : lookup (codes "promptTokenCount") usage ≡ some (number a)
  pub has_completion : lookup (codes "candidatesTokenCount") usage ≡ some (number b)

abbrev pub said : Text → ℕ → ℕ → Completion
said t a b = record {
  content = t;
  usage = some (record { prompt_tokens = a; completion_tokens = b });
}

module _ {W : Type 0} (jitter : ℕ → ℕ) where
  read_body_once :
      (f : Format) (env : Endpoint W) (body : Json) (c : Completion)
      → f.content body ≡ some c.content
      → f.usage body ≡ c.usage
      → read_body jitter f env body ≡ answered c
  unfolding read_body
  read_body_once f env body c t u = rw (read_body, t, u) refl

  -- A first answer with a body of which the format reads a completion.
  call_once :
      (f : Format) (env : Endpoint W) (prompt : Text) (w : W) (body : Json) (c : Completion)
      → env.answers (f.payload prompt) w 1 ≡ returned body
      → f.content body ≡ some c.content
      → f.usage body ≡ c.usage
      → call jitter f env prompt w ≡ (answered c, env.after (f.payload prompt) w)
  unfolding call concluded read_result
  call_once f env prompt w body c h t u =
      rw (with_retry_once default_retry jitter (env.answers (f.payload prompt) w) body h)
        (ap (λ x. (x, env.after (f.payload prompt) w)) (read_body_once f env body c t u))

at_member :
    (key : Text) (ms : Members) (j : Json)
    → lookup key ms ≡ some j
    → at_key key (some (object ms)) ≡ some j
unfolding at_key
at_member key ms j h = h

count_at-number :
    (key : Text) (ms : Members) (n : ℕ) → lookup key ms ≡ some (number n) → count_at key ms ≡ some n
unfolding count_at as_count
count_at-number key ms n h = rw (h, count_at) refl

deepseek_reads :
    (j : Json) (t : Text) (a b : ℕ)
    → DeepseekSays j t a b
    → (deepseek_content j ≡ some t) × (deepseek_usage j ≡ (said t a b).usage)
unfolding deepseek_content deepseek_usage at_zero as_text counts both
deepseek_reads j t a b s = (
  rw
      (
        s.is_object,
        at_member (codes "choices") s.body _ s.has_choices,
        at_member (codes "message") s.choice _ s.has_message,
        at_member (codes "content") s.message _ s.has_content,
      )
      refl,
  rw
      (
        s.is_object,
        at_member (codes "usage") s.body _ s.has_usage,
        count_at-number (codes "prompt_tokens") s.usage a s.has_prompt,
        count_at-number (codes "completion_tokens") s.usage b s.has_completion,
      )
      refl,
)

gemini_reads :
    (j : Json) (t : Text) (a b : ℕ)
    → GeminiSays j t a b
    → (gemini_content j ≡ some t) × (gemini_usage j ≡ (said t a b).usage)
unfolding gemini_content gemini_usage at_zero as_text counts both
gemini_reads j t a b s = (
  rw
      (
        s.is_object,
        at_member (codes "candidates") s.body _ s.has_candidates,
        at_member (codes "content") s.candidate _ s.has_content,
        at_member (codes "parts") s.content _ s.has_parts,
        at_member (codes "text") s.part _ s.has_text,
      )
      refl,
  rw
      (
        s.is_object,
        at_member (codes "usageMetadata") s.body _ s.has_usage,
        count_at-number (codes "promptTokenCount") s.usage a s.has_prompt,
        count_at-number (codes "candidatesTokenCount") s.usage b s.has_completion,
      )
      refl,
)

-- If DeepSeek and Gemini answer the first request for every prompt with bodies that carry the
-- same content and the same token counts where their formats have them, whatever other members
-- these bodies have, and leave the world in the same state, then both providers come to the same
-- verdict on a prompt, the same classification with the same token counts and latency or the same
-- error, and leave the world in the same state.
pub providers_agree :
    {W : Type 0} (jitter : ℕ → ℕ) (model model' : Text) (surroundings : Service W)
    (d g : Endpoint W) (from_d from_g : Text → W → Json) (content : Text → W → Text)
    (prompt_tokens completion_tokens : Text → W → ℕ)
    → ((prompt : Text) (w : W)
        → d.answers (deepseek_payload model prompt) w 1 ≡ returned (from_d prompt w))
    → ((prompt : Text) (w : W) → g.answers (gemini_payload prompt) w 1 ≡ returned (from_g prompt w))
    → ((prompt : Text) (w : W)
        → DeepseekSays
            (from_d prompt w)
            (content prompt w)
            (prompt_tokens prompt w)
            (completion_tokens prompt w))
    → ((prompt : Text) (w : W)
        → GeminiSays
            (from_g prompt w)
            (content prompt w)
            (prompt_tokens prompt w)
            (completion_tokens prompt w))
    → ((prompt : Text) (w : W)
        → d.after (deepseek_payload model prompt) w ≡ g.after (gemini_payload prompt) w)
    → (event : RawEvent) (w : W)
    → SameCall
        ((deepseek_provider jitter model surroundings d).classify event w)
        ((gemini_provider jitter model' surroundings g).classify event w)
providers_agree jitter model model' surroundings d g from_d from_g content a b d_up g_up d_says
      g_says alike event =
    calls_agree (record deepseek { model = model }) (record gemini { model = model' })
      (record surroundings { call = call jitter (deepseek_format model) d })
      (call jitter gemini_format g)
      (λ prompt w.
        let c = said (content prompt w) (a prompt w) (b prompt w) in
        let (t, u) = deepseek_reads (from_d prompt w) _ _ _ (d_says prompt w) in
        let (t', u') = gemini_reads (from_g prompt w) _ _ _ (g_says prompt w) in
        call_once jitter (deepseek_format model) d prompt w (from_d prompt w) c (d_up prompt w) t u
        ∙ ap (λ v. (answered c, v)) (alike prompt w)
        ∙ sym (call_once jitter gemini_format g prompt w (from_g prompt w) c (g_up prompt w) t' u'))
      (build_user_prompt event none)

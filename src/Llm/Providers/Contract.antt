-- ===== src/Llm/Providers/Contract.antt =====
-- What the loop of src/argus/llm/deepseek.py and src/argus/llm/gemini.py gives to its caller.
use mathlib.Core.Path.{subst}
use argus_core.Common.{ℕ, ◌-◌, ◌/◌, ◌≡◌, refl, Option, none, some, Option-cases, inl, inr}
use argus_core.Common.Text.{Text}
use argus_core.Llm.{Classification, Reply, answer, failure, Validated, IsProvider}
use argus_core.Llm.Prompts.{build_user_prompt, model_validate-Validated}
use argus_core.Llm.Providers.{
  Provider, Usage, Completion, Called, answered, raised, Service, parsed, result_of, priced, settle,
  heard, attempt, refuse, ask, provider, retry_prompt,
}

module _ {W : Type 0} (p : Provider) (env : Service W) where
  abbrev Good : Reply → Type 0
  Good (answer r) = Validated r.classification
  Good (failure m) = Unit

  parsed-Validated : (t : Text) (c : Classification) → parsed p env t ≡ some c → Validated c
  unfolding parsed
  parsed-Validated t c h = elim (Option-cases (env.loads t)) [
    | inl broken ↦ absurd (cc (rw (broken, parsed) at h))
    | inr (f, read) ↦ model_validate-Validated f c (rw (read, parsed) at h)
  ]

  priced-Good :
      (c : Classification) (u : Option Usage) (n : ℕ) → Validated c → Good (priced p env c u n)
  unfolding priced result_of
  priced-Good c none n le = tt
  priced-Good c (some u) n le = le

  settle-Good :
      (o : Option Classification) (r : Completion) (n : ℕ) (other : Reply × W) (w : W)
      → ((c : Classification) → o ≡ some c → Validated c)
      → Good other.0
      → Good (settle p env o r n other w).0
  unfolding settle
  settle-Good (some c) r n other w le good = priced-Good c r.usage n (le c refl)
  settle-Good none r n other w le good = good

  heard-Good :
      (c : Called) (t : ℕ) (other : Completion → W → Reply × W) (w : W)
      → ((r : Completion) (v : W) → Good (other r v).0)
      → Good (heard p env c t other w).0
  unfolding heard
  heard-Good (raised m) t other w good = tt
  heard-Good (answered r) t other w good =
      let (t', w') = env.monotonic w in
      settle-Good (parsed p env r.content) r ((t' - t) / 1000) (other r w') w'
        (parsed-Validated r.content) (good r w')

  attempt-Good :
      (prompt : Text) (other : Completion → W → Reply × W) (w : W)
      → ((r : Completion) (v : W) → Good (other r v).0)
      → Good (attempt p env prompt other w).0
  unfolding attempt
  attempt-Good prompt other w good =
      let (t, w') = env.monotonic w in
      let (c, w'') = env.call prompt w' in heard-Good c t other w'' good

  -- The DeepSeek and the Gemini provider keep to the contract that the classifier asks of a
  -- provider: whatever the service answers and on whichever of the two attempts, a result has one
  -- of the three words as its sentiment, a score of at most 100, and a summary of at most 120
  -- characters.
  pub provider-IsProvider : IsProvider (provider p env)
  unfolding ask refuse
  provider-IsProvider = record {
    validated = λ e w r h. subst Good h (
        attempt-Good (build_user_prompt e none) _ w (λ _ v.
          attempt-Good (retry_prompt (build_user_prompt e none)) (refuse p env) v (λ _ _. tt)));
  }

-- ===== src/Llm/Providers/Agreement.antt =====
-- The providers of src/argus/llm/deepseek.py and src/argus/llm/gemini.py next to each other.
use mathlib.Core.Path.{subst}
use argus_core.Common.{ℕ, ◌-◌, ◌/◌, ◌≡◌, refl, Option, none, some}
use argus_core.Common.Text.{Text}
use argus_core.Llm.{Classification, Reply, answer, failure}
use argus_core.Llm.Providers.{
  Provider, Usage, Completion, Called, answered, raised, Service, parsed, result_of, priced, settle,
  heard, attempt, refuse, ask, retry_prompt,
}

-- Two replies that differ at most in the name, the model and the cost.
abbrev pub SameVerdict : Reply → Reply → Type 0
SameVerdict (answer r) (answer s) =
    (r.classification ≡ s.classification)
    × (r.meta.prompt_tokens ≡ s.meta.prompt_tokens)
    × (r.meta.completion_tokens ≡ s.meta.completion_tokens)
    × (r.meta.latency_ms ≡ s.meta.latency_ms)
SameVerdict (failure m) (failure n) = m ≡ n
SameVerdict _ _ = ⊥

-- What two calls of a provider come to: the same verdict, and the same world.
abbrev pub SameCall : {W : Type 0} → Reply × W → Reply × W → Type 0
SameCall (r, v) (s, w) = SameVerdict r s × (v ≡ w)

module _ {W : Type 0} (p q : Provider) (env : Service W) where
  priced-same :
      (c : Classification) (u : Option Usage) (n : ℕ)
      → SameVerdict (priced p env c u n) (priced q env c u n)
  unfolding priced result_of
  priced-same c none n = refl
  priced-same c (some u) n = (refl, refl, refl, refl)

  settle-same :
      (o : Option Classification) (r : Completion) (n : ℕ) (x y : Reply × W) (w : W)
      → SameCall x y
      → SameCall (settle p env o r n x w) (settle q env o r n y w)
  unfolding settle
  settle-same (some c) r n x y w h = (priced-same c r.usage n, refl)
  settle-same none r n x y w h = h

  heard-same :
      (c : Called) (t : ℕ) (f g : Completion → W → Reply × W) (w : W)
      → ((r : Completion) (v : W) → SameCall (f r v) (g r v))
      → SameCall (heard p env c t f w) (heard q env c t g w)
  unfolding heard parsed
  heard-same (raised m) t f g w h = (refl, refl)
  heard-same (answered r) t f g w h =
      let (t', w') = env.monotonic w in
      settle-same (parsed p env r.content) r ((t' - t) / 1000) (f r w') (g r w') w' (h r w')

  attempt-same :
      (prompt : Text) (f g : Completion → W → Reply × W) (w : W)
      → ((r : Completion) (v : W) → SameCall (f r v) (g r v))
      → SameCall (attempt p env prompt f w) (attempt q env prompt g w)
  unfolding attempt
  attempt-same prompt f g w h =
      let (t, w') = env.monotonic w in let (c, w'') = env.call prompt w' in heard-same c t f g w'' h

  -- One service behind two providers.
  ask-same : (prompt : Text) (w : W) → SameCall (ask p env prompt w) (ask q env prompt w)
  unfolding ask refuse
  ask-same prompt w = attempt-same prompt _ _ w (λ _ v.
      attempt-same (retry_prompt prompt) (refuse p env) (refuse q env) v (λ r u. (refl, refl)))

-- Two services that answer alike, behind two providers.
pub calls_agree :
    {W : Type 0} (p q : Provider) (env : Service W) (call : Text → W → Called × W)
    → ((prompt : Text) (w : W) → env.call prompt w ≡ call prompt w)
    → (prompt : Text) (w : W)
    → SameCall (ask p env prompt w) (ask q (record env { call = call }) prompt w)
calls_agree p q env call same prompt w =
    let one : env ≡ record env { call = call } = λ i. record env { call = λ t v. same t v i } in
    subst (λ e. SameCall (ask p env prompt w) (ask q e prompt w)) one (ask-same p q env prompt w)

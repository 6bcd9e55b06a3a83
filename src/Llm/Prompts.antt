-- ===== src/Llm/Prompts.antt =====
-- src/argus/llm/prompts.py: the user prompt, and the validation of what the LLM answers. `json.loads` is the
-- standard library's, and its result is given by the values of the three keys that pydantic reads,
-- `none` for one that is missing or of another type (a negative score is out of range in any case).
use mathlib.Core.Path.{subst}
use argus_core.Common.{
  ℕ, ◌≡◌, Bool, ◌&&◌, ◌||◌, List, [], ◌∷◌, ◌++◌, Option, none, some, arith, leb, length,
  if◌then◌else◌, ◌⊎◌, inl, inr, Bool-cases, refl, true, false,
}
use argus_core.Common.Text.{Text, codes, text_eq, text_eq_iff, truthy, text_or, join}
use argus_core.Models.{RawEvent}
use argus_core.Llm.{Classification, Worded, Validated}

-- `lines` after the note on the watchlist.
abbrev note_lines : Option Text → List Text
note_lines note =
    if truthy note then [] ∷ (codes "Watchlist context: " ++ text_or note []) ∷ [] else []

-- `build_user_prompt`.
pub build_user_prompt : RawEvent → Option Text → Text
build_user_prompt event note = join (codes "\n") (
    codes "EVENT:"
    ∷ (codes "Source: " ++ event.source)
    ∷ (codes "Ticker: " ++ text_or event.ticker (codes "unknown"))
    ∷ (codes "Title: " ++ event.title)
    ∷ (codes "Body: " ++ event.body)
    ∷ note_lines note)

pub record Fields : Type 0 where
  pub sentiment : Option Text
  pub relevance_score : Option ℕ
  pub summary : Option Text

-- The constraints of `Classification`: a Literal, `ge=0, le=100`, and `max_length=120`.
allowed : Text → ℕ → Text → Bool
allowed sentiment score summary =
    (text_eq sentiment (codes "positive")
      || (text_eq sentiment (codes "negative") || text_eq sentiment (codes "neutral")))
    && (leb score 100 && leb (length summary) 120)

checked : Option Text → Option ℕ → Option Text → Option Classification
checked (some sentiment) (some score) (some summary) =
    if allowed sentiment score summary
    then some (record { sentiment = sentiment; relevance_score = score; summary = summary })
    else none
checked _ _ _ = none

-- `Classification.model_validate`; `none` is a ValidationError.
pub model_validate : Fields → Option Classification
unfolding checked
model_validate f = checked f.sentiment f.relevance_score f.summary

or-cases : (a b : Bool) → (a || b) ≡ true → (a ≡ true) ⊎ (b ≡ true)
or-cases true b h = inl refl
or-cases false b h = inr h

allowed-Worded : (s : Text) (n : ℕ) (t : Text) → allowed s n t ≡ true → Worded s
unfolding allowed
allowed-Worded s n t h =
    let good = text_eq s (codes "positive") in
    let bad = text_eq s (codes "negative") in
    let other = text_eq s (codes "neutral") in
    let one : (good || (bad || other)) ≡ true = ground arith in
    elim (or-cases good (bad || other) one) [
      | inl e ↦ Worded.positive ((text_eq_iff s _).0 e)
      | inr rest ↦ elim (or-cases bad other rest) [
        | inl e ↦ Worded.negative ((text_eq_iff s _).0 e)
        | inr e ↦ Worded.neutral ((text_eq_iff s _).0 e)
      ]
    ]

allowed-Validated :
    (s : Text) (n : ℕ) (t : Text)
    → allowed s n t ≡ true
    → Validated (record { sentiment = s; relevance_score = n; summary = t })
unfolding allowed
allowed-Validated s n t h = record {
  worded = allowed-Worded s n t h;
  in_range = ground arith;
  brief = ground arith;
}

checked-Validated :
    (s : Option Text) (n : Option ℕ) (t : Option Text) (c : Classification)
    → checked s n t ≡ some c
    → Validated c
unfolding checked
checked-Validated (some s) (some n) (some t) c h = elim (Bool-cases (allowed s n t)) [
  | inl ok ↦ subst Validated (cc (rw ok at h)) (allowed-Validated s n t ok)
  | inr refused ↦ absurd (cc (rw refused at h))
]
checked-Validated none n t c h = absurd (cc)
checked-Validated (some s) none t c h = absurd (cc)
checked-Validated (some s) (some n) none c h = absurd (cc)

-- What is validated meets the constraints.
pub model_validate-Validated :
    (f : Fields) (c : Classification) → model_validate f ≡ some c → Validated c
unfolding model_validate
model_validate-Validated f c h = checked-Validated f.sentiment f.relevance_score f.summary c h

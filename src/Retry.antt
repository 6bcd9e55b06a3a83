-- ===== src/Retry.antt =====
-- The shape of the two retry loops of the source (`with_retry` of src/argus/common/http.py and
-- `DiscordClient.send_embed` of src/argus/notifier/discord.py): attempts are numbered from 1, and
-- after each one the code decides to stop with a value or to sleep and go on.
use mathlib.Core.Option
use argus_core.Common.{
  ℕ, zero, suc, ◌+◌, ◌≤◌, ◌<◌, ◌≡◌, refl, List, [], ◌∷◌, Option, none, some, arith, length, ◌⊎◌,
  inl, inr,
}

lt_or_eq : (a b : ℕ) → a ≤ b → (a + 1 ≤ b) ⊎ (a ≡ b)
lt_or_eq a b h = omega arith

pub data Decision {ℓ} (A : Type ℓ) : Type ℓ where
  stop : A → Decision A
  again : ℕ → Decision A

Decision-cases {ℓ} :
    {A : Type ℓ} (d : Decision A) → ((a : A) × (d ≡ stop a)) ⊎ ((t : ℕ) × (d ≡ again t))
Decision-cases (stop a) = inl (a, refl)
Decision-cases (again t) = inr (t, refl)

-- How the loop ended: its value, the number of the last attempt, and the delays slept.
pub record Outcome {ℓ} (A : Type ℓ) : Type ℓ where
  pub value : A
  pub attempts : ℕ
  pub slept : List ℕ

module _ {ℓ} {A : Type ℓ} where
  slept_first : ℕ → Outcome A → Outcome A
  slept_first t o = record o { slept = t ∷ o.slept }

  -- `while True` from one attempt on, with fuel; `none` means that the fuel ran out.
  pub retry_from : (ℕ → Decision A) → ℕ → ℕ → Option (Outcome A)
  unfolding slept_first
  retry_from decide zero attempt = none
  retry_from decide (suc fuel) attempt = elim (decide attempt) [
    | stop a ↦ some (record { value = a; attempts = attempt; slept = [] })
    | again t ↦ Option.map (slept_first t) (retry_from decide fuel (attempt + 1))
  ]

  -- The loop that stops at once.
  pub retry_from_once :
      (decide : ℕ → Decision A) (fuel attempt : ℕ) (a : A)
      → decide attempt ≡ stop a
      → retry_from decide (suc fuel) attempt
        ≡ some (record { value = a; attempts = attempt; slept = [] })
  unfolding retry_from
  retry_from_once decide fuel attempt a h = rw (h, retry_from) refl

  -- The first attempt at which the code stops ends the loop with its value; before it there was a
  -- sleep after each attempt.
  pub record FirstStop (decide : ℕ → Decision A) (start : ℕ) (o : Outcome A) : Type ℓ where
    pub stops : decide o.attempts ≡ stop o.value
    pub since : start ≤ o.attempts
    pub sleeps : (k : ℕ) → start ≤ k → k < o.attempts → (t : ℕ) × (decide k ≡ again t)
    pub slept_each : start + length o.slept ≡ o.attempts

  -- If attempt `last` stops at the latest, and the fuel reaches it, the loop ends.
  module _ (decide : ℕ → Decision A) (last : ℕ) (a : A) (at_last : decide last ≡ stop a) where
    first_sleep :
        (start t : ℕ) (o : Outcome A)
        → decide start ≡ again t
        → FirstStop decide (start + 1) o
        → FirstStop decide start (slept_first t o)
    unfolding slept_first
    first_sleep start t o e f = record {
      stops = f.stops;
      since = omega (arith, f.since);
      sleeps = λ k le lt. elim (lt_or_eq start k le) [
        | inl after ↦ f.sleeps k after lt
        | inr here ↦ (t, rw (← here) e)
      ];
      slept_each = omega (arith, f.slept_each);
    }

    pub retry_from_total :
        (fuel start : ℕ)
        → start ≤ last
        → last < start + fuel
        → (o : Outcome A) × (retry_from decide fuel start ≡ some o)
          × FirstStop decide start o
          × (o.attempts ≤ last)
    unfolding retry_from
    retry_from_total zero start le lt = absurd (omega arith)
    retry_from_total (suc fuel) start le lt = elim (Decision-cases (decide start)) [
      | inl (b, e) ↦ (
        record { value = b; attempts = start; slept = [] },
        rw (e, retry_from),
        record {
          stops = e;
          since = omega arith;
          sleeps = λ k ge below. absurd (omega arith);
          slept_each = omega arith;
        },
        le,
      )
      | inr (t, e) ↦
          let before_last : start + 1 ≤ last = elim (lt_or_eq start last le) [
            | inl h ↦ h
            | inr h ↦ absurd (cc (at_last, e, h))
          ] in
          let (o, ends, f, below) = retry_from_total fuel (start + 1) before_last (omega arith) in
          (
            slept_first t o,
            rw (e, ends, retry_from),
            first_sleep start t o e f,
            unfold slept_first in below,
          )
    ]

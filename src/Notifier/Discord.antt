-- ===== src/Notifier/Discord.antt =====
-- `DiscordClient` of src/argus/notifier/discord.py. The answers of the webhook to the attempts of one
-- call are a parameter; times are in milliseconds.
use argus_core.Common.{
  sym, ◌∙◌, ap, ℕ, suc, ◌+◌, ◌-◌, ◌*◌, ◌^◌, ◌≤◌, ◌<◌, ◌≡◌, refl, Bool, true, false, not, ◌||◌, ◌&&◌,
  List, [], ◌∷◌, Option, some, arith, leb, ◌==◌, inl, inr, ◌↔◌, if◌then◌else◌, Bool-cases, length,
  any,
}
use argus_core.Retry.{Decision, stop, again, Outcome, retry_from, retry_from_total}
use argus_core.Http.{RetryAfter, absent, malformed, after}

-- What the webhook does with one POST: it answers with a status and its header `Retry-After`, or the
-- transport raises.
pub data Answer : Type 0 where
  status : ℕ → RetryAfter → Answer
  transport_error : Answer

pub record DiscordClient : Type 0 where
  pub max_attempts : ℕ
  pub backoff_base : ℕ

abbrev pub default_client : DiscordClient
default_client = record { max_attempts = 3; backoff_base = 1000 }

-- httpx: `raise_for_status` returns for the statuses 2xx only.
abbrev pub is_success : ℕ → Bool
is_success s = leb 200 s && leb s 299

abbrev pub server_errors : List ℕ
server_errors = 500 ∷ 502 ∷ 503 ∷ 504 ∷ []

module _ (c : DiscordClient) where
  -- `float(res.headers.get("Retry-After", self._backoff_base))`; the ValueError of a malformed
  -- header ends in `except Exception`, like any other.
  rate_limited : ℕ → RetryAfter → Decision Bool
  rate_limited attempt malformed = stop false
  rate_limited attempt absent =
      if leb c.max_attempts attempt then stop false else again c.backoff_base
  rate_limited attempt (after t) = if leb c.max_attempts attempt then stop false else again t

  -- The body of the loop, by what the attempt did.
  unfoldable pub decide : ℕ → Answer → Decision Bool
  unfolding rate_limited
  decide attempt transport_error = stop false
  decide attempt (status s h) =
      if s == 429
      then rate_limited attempt h
      else if is_success s
      then stop true
      else if not (any (λ x. s == x) server_errors) || leb c.max_attempts attempt
      then stop false
      else again (c.backoff_base * 2 ^ (attempt - 1))

  module _ (answers : ℕ → Answer) where
    -- `send_embed`, with one round of fuel more than there are attempts.
    pub send_embed : Option (Outcome Bool)
    send_embed = retry_from (λ n. decide n (answers n)) (suc c.max_attempts) 1

  abbrev pub last_attempt : ℕ
  last_attempt = suc (c.max_attempts - 1)

  rate_limited_last : (h : RetryAfter) → (b : Bool) × (rate_limited last_attempt h ≡ stop b)
  unfolding rate_limited
  rate_limited_last malformed = (false, refl)
  rate_limited_last absent = (false, ground arith)
  rate_limited_last (after t) = (false, ground arith)

  decide_last : (x : Answer) → (b : Bool) × (decide last_attempt x ≡ stop b)
  unfolding decide
  decide_last transport_error = (false, refl)
  decide_last (status s h) = elim (Bool-cases (s == 429)) [
    | inl limited ↦ let (b, e) = rate_limited_last h in (b, rw limited (unfold rate_limited in e))
    | inr other ↦ elim (Bool-cases (is_success s)) [
      | inl fine ↦ (true, ground arith)
      | inr bad ↦ (false, ground arith)
    ]
  ]

  rate_limited-ne-true : (n : ℕ) (h : RetryAfter) → rate_limited n h ≡ stop true → ⊥
  unfolding rate_limited
  rate_limited-ne-true n malformed e = cc
  rate_limited-ne-true n absent e = ground arith
  rate_limited-ne-true n (after t) e = ground arith

  -- A POST that the webhook accepted.
  abbrev pub Accepted : Answer → Type 0
  Accepted transport_error = ⊥
  Accepted (status s h) = is_success s ≡ true

  decide-true : (n : ℕ) (x : Answer) → decide n x ≡ stop true → Accepted x
  unfolding decide
  decide-true n transport_error e = absurd (cc)
  decide-true n (status s h) e = elim (Bool-cases (s == 429)) [
    | inl limited ↦ absurd (rate_limited-ne-true n h (unfold rate_limited in rw limited at e))
    | inr other ↦ ground arith
  ]

  decide-Accepted : (n : ℕ) (x : Answer) → Accepted x → decide n x ≡ stop true
  unfolding decide
  decide-Accepted n transport_error a = absurd a
  decide-Accepted n (status s h) a = ground arith

  decide-again-room : (n t : ℕ) (x : Answer) → decide n x ≡ again t → n < c.max_attempts
  unfolding decide
  decide-again-room n t transport_error e = absurd (cc)
  decide-again-room n t (status s malformed) e = ground arith
  decide-again-room n t (status s absent) e = ground arith
  decide-again-room n t (status s (after u)) e = ground arith

  -- What a call did: between 1 and `max_attempts` POSTs, none but the last of which was accepted, and
  -- it reports success exactly if the last was.
  pub record Sent (answers : ℕ → Answer) (o : Outcome Bool) : Type 0 where
    pub some_attempt : 1 ≤ o.attempts
    pub bounded : o.attempts ≤ last_attempt
    pub before : (k : ℕ) → 1 ≤ k → k < o.attempts → ¬ Accepted (answers k)
    pub success : (o.value ≡ true) ↔ Accepted (answers o.attempts)
    pub slept_between : 1 + length o.slept ≡ o.attempts

  again-ne-stop : {A : Type 0} {t : ℕ} {a : A} → again t ≡ stop a → ⊥
  again-ne-stop e = cc

  stop-injective : {a b : Bool} → stop a ≡ stop b → a ≡ b
  stop-injective e = cc

  -- A call of `send_embed` always ends, after at least one POST and at most `max_attempts` (or
  -- one, if that is 0). None but the last was accepted, a sleep lies between two POSTs, and the
  -- call returns True exactly if the last one was accepted.
  pub send_embed-Sent :
      (answers : ℕ → Answer) → (o : Outcome Bool) × (send_embed answers ≡ some o) × Sent answers o
  unfolding send_embed
  send_embed-Sent answers =
      let (r, e) = decide_last (answers last_attempt) in
      let (o, ends, f, below) =
        retry_from_total (λ n. decide n (answers n)) last_attempt r e (suc c.max_attempts) 1
          (omega arith) (omega arith) in
      (
        o,
        ends,
        record {
          some_attempt = f.since;
          bounded = below;
          before = λ k ge lt ok.
              let (t, sleeps) = f.sleeps k ge lt in
              again-ne-stop (sym sleeps ∙ decide-Accepted k (answers k) ok);
          success = (
            λ h. decide-true o.attempts (answers o.attempts) (f.stops ∙ ap stop h),
            λ ok. stop-injective (sym f.stops ∙ decide-Accepted o.attempts (answers o.attempts) ok),
          );
          slept_between = f.slept_each;
        },
      )

-- ===== src/Http.antt =====
-- src/argus/common/http.py: the decorator `with_retry`. Times are in milliseconds; what the wrapped
-- call does on its n-th attempt, and the random part of the delay, are parameters.
pub mod Calls
pub mod Clients
use argus_core.Common.{
  ℕ, suc, ◌+◌, ◌-◌, ◌*◌, ◌^◌, ◌≤◌, ◌<◌, ◌≡◌, refl, true, not, ◌||◌, List, [], ◌∷◌, Option, none,
  some, arith, leb, ◌==◌, any, min, if◌then◌else◌, length,
}
use mathlib.Core.Path.{subst}
use argus_core.Common.Text.{Text}
use argus_core.Retry.{
  Decision, stop, again, Outcome, retry_from, retry_from_once, FirstStop, retry_from_total,
}

-- The header `Retry-After`: `malformed` is a value that `float` refuses, such as an HTTP date.
pub data RetryAfter : Type 0 where
  absent malformed : RetryAfter
  after : ℕ → RetryAfter

-- What one attempt does: it returns, raises `HTTPStatusError`, or raises something else.
pub data Attempt (A : Type 0) : Type 0 where
  returned : A → Attempt A
  status_error : ℕ → RetryAfter → Attempt A
  raised : Text → Attempt A

-- What the caller of the wrapped function gets.
pub data Result (A : Type 0) : Type 0 where
  ok : A → Result A
  http_error : ℕ → Result A
  exception : Text → Result A

pub record RetryConfig : Type 0 where
  pub max_attempts : ℕ
  pub retryable_status : List ℕ
  pub backoff_base : ℕ

-- The defaults of `with_retry`.
abbrev pub default_retry : RetryConfig
default_retry = record {
  max_attempts = 3;
  retryable_status = 429 ∷ 500 ∷ 502 ∷ 503 ∷ 504 ∷ [];
  backoff_base = 1000;
}

abbrev pub max_retry_after : ℕ
max_retry_after = 60000

-- `_parse_retry_after`.
parse_retry_after : RetryAfter → Option ℕ
parse_retry_after absent = none
parse_retry_after malformed = none
parse_retry_after (after t) = some t

-- `if retry_after is not None: delay = min(retry_after, MAX_RETRY_AFTER_S)`.
delay_of : Option ℕ → ℕ → ℕ
delay_of none backoff = backoff
delay_of (some t) backoff = min t max_retry_after

stop-injective : {A : Type 0} {a b : A} → stop a ≡ stop b → a ≡ b
stop-injective h = cc

module _ {A : Type 0} (c : RetryConfig) (jitter : ℕ → ℕ) (answers : ℕ → Attempt A) where
  -- The body of the loop, by what the attempt did.
  unfoldable pub decide : ℕ → Attempt A → Decision (Result A)
  unfolding parse_retry_after delay_of
  decide attempt (returned a) = stop (ok a)
  decide attempt (raised m) = stop (exception m)
  decide attempt (status_error s h) =
      if not (any (λ x. s == x) c.retryable_status) || leb c.max_attempts attempt
      then stop (http_error s)
      else again
          (delay_of (parse_retry_after h) (c.backoff_base * 2 ^ (attempt - 1) + jitter attempt))

  -- The wrapped call, with one round of fuel more than there are attempts.
  pub with_retry : Option (Outcome (Result A))
  with_retry = retry_from (λ n. decide n (answers n)) (suc c.max_attempts) 1

  -- A first attempt that returns is the outcome.
  pub with_retry_once :
      (a : A)
      → answers 1 ≡ returned a
      → with_retry ≡ some (record { value = ok a; attempts = 1; slept = [] })
  unfolding with_retry decide
  with_retry_once a h =
      retry_from_once (λ n. decide n (answers n)) c.max_attempts 1 (ok a) (rw h refl)

  -- There is always one attempt, and otherwise at most `max_attempts`.
  abbrev pub last_attempt : ℕ
  last_attempt = suc (c.max_attempts - 1)

  decide_last : (x : Attempt A) → (r : Result A) × (decide last_attempt x ≡ stop r)
  unfolding decide
  decide_last (returned a) = (ok a, refl)
  decide_last (raised m) = (exception m, refl)
  decide_last (status_error s h) = (http_error s, ground arith)

  -- The wrapped call always ends, after at most `max_attempts` attempts (and one at least), with
  -- the first attempt at which the code stops.
  with_retry_total :
      (o : Outcome (Result A)) × (with_retry ≡ some o)
      × FirstStop (λ n. decide n (answers n)) 1 o
      × (o.attempts ≤ last_attempt)
  unfolding with_retry
  with_retry_total =
      let (r, e) = decide_last (answers last_attempt) in
      retry_from_total (λ n. decide n (answers n)) last_attempt r e (suc c.max_attempts) 1
        (omega arith) (omega arith)

  -- What the caller gets is what the last attempt did.
  abbrev pub Shows : Result A → Attempt A → Type 0
  Shows (ok a) x = x ≡ returned a
  Shows (exception m) x = x ≡ raised m
  Shows (http_error s) x = (h : RetryAfter) × (x ≡ status_error s h)

  decide-Shows : (n : ℕ) (x : Attempt A) (r : Result A) → decide n x ≡ stop r → Shows r x
  unfolding decide
  decide-Shows n (returned b) r h = subst (λ y. Shows y (returned b)) (stop-injective h) refl
  decide-Shows n (raised m) r h = subst (λ y. Shows y (raised m)) (stop-injective h) refl
  decide-Shows n (status_error s t) r h =
      let e : http_error s ≡ r = ground arith in subst (λ y. Shows y (status_error s t)) e (t, refl)

  -- Why the loop goes on: a retryable status, and an attempt is left.
  pub record Retryable (n : ℕ) (x : Attempt A) : Type 0 where
    pub status : ℕ
    pub header : RetryAfter
    pub is_error : x ≡ status_error status header
    pub listed : any (λ y. status == y) c.retryable_status ≡ true
    pub room : n < c.max_attempts

  decide-again : (n t : ℕ) (x : Attempt A) → decide n x ≡ again t → Retryable n x
  unfolding decide
  decide-again n t (returned b) h = absurd (cc)
  decide-again n t (raised m) h = absurd (cc)
  decide-again n t (status_error s r) h = record {
    status = s;
    header = r;
    is_error = refl;
    listed = ground arith;
    room = ground arith;
  }

  -- What a call of the wrapped function did.
  pub record Retried (o : Outcome (Result A)) : Type 0 where
    pub some_attempt : 1 ≤ o.attempts
    pub bounded : o.attempts ≤ last_attempt
    pub before : (k : ℕ) → 1 ≤ k → k < o.attempts → Retryable k (answers k)
    pub shown : Shows o.value (answers o.attempts)
    pub slept_between : 1 + length o.slept ≡ o.attempts

  -- The wrapped call always ends, after at least one attempt and at most `max_attempts` (or one,
  -- if that is 0). Every attempt but the last failed with a retryable status, a sleep lies
  -- between two attempts, and the caller gets what the last attempt did: its value or its error.
  pub with_retry-Retried : (o : Outcome (Result A)) × (with_retry ≡ some o) × Retried o
  with_retry-Retried =
      let (o, ends, f, below) = with_retry_total in
      (
        o,
        ends,
        record {
          some_attempt = f.since;
          bounded = below;
          before = λ k ge lt. let (t, e) = f.sleeps k ge lt in decide-again k t (answers k) e;
          shown = decide-Shows o.attempts (answers o.attempts) o.value f.stops;
          slept_between = f.slept_each;
        },
      )

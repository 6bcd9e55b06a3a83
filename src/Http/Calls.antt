-- ===== src/Http/Calls.antt =====
-- What a caller of a function under `with_retry` of src/argus/common/http.py gets: a value, or an exception,
-- which is `none`. What the function does on its n-th attempt is a parameter.
use argus_core.Common.{ℕ, ◌≤◌, ◌<◌, ◌≡◌, ◌≢◌, ◌⊎◌, inl, inr, refl, Option, none, some}
use argus_core.Retry.{Outcome}
use argus_core.Http.{
  Attempt, returned, Result, ok, http_error, exception, default_retry, with_retry,
  with_retry-Retried, Shows, Retryable,
}

module _ {B : Type 0} (jitter : ℕ → ℕ) (answers : ℕ → Attempt B) where
  content : Result B → Option B
  content (ok b) = some b
  content (http_error s) = none
  content (exception m) = none

  -- `await` of the wrapped function, with the defaults of the decorator.
  unfoldable pub awaited : Option B
  unfolding content
  awaited = elim (with_retry default_retry jitter answers) [
    | some o ↦ content o.value
    | none ↦ none
  ]

  -- The attempt that decided the call.
  pub record Decided (k : ℕ) : Type 0 where
    pub since : 1 ≤ k
    pub bounded : k ≤ 3
    pub before : (j : ℕ) → 1 ≤ j → j < k → Retryable default_retry jitter answers j (answers j)

  -- The call gives what that attempt returned, or it raised.
  unfoldable pub Ends : ℕ → Option B → Type 0
  Ends k o =
      ((b : B) × (answers k ≡ returned b) × (o ≡ some b))
      ⊎ (((b : B) → answers k ≢ returned b) × (o ≡ none))

  content-Ends :
      (k : ℕ) (r : Result B) → Shows default_retry jitter answers r (answers k) → Ends k (content r)
  unfolding Ends content
  content-Ends k (ok b) h = inl (b, h, refl)
  content-Ends k (http_error s) (t, h) = inr ((λ b e. cc (e, h)), refl)
  content-Ends k (exception m) h = inr ((λ b e. cc (e, h)), refl)

  awaited_of :
      (o : Outcome (Result B))
      → with_retry default_retry jitter answers ≡ some o
      → awaited ≡ content o.value
  unfolding awaited
  awaited_of o ends = rw (awaited, ends) refl

  pub awaited-Ends : (k : ℕ) × Decided k × Ends k awaited
  awaited-Ends =
      let (o, ends, t) = with_retry-Retried default_retry jitter answers in
      (
        o.attempts,
        record { since = t.some_attempt; bounded = t.bounded; before = t.before },
        rw (awaited_of o ends) (content-Ends o.attempts o.value t.shown),
      )

-- ===== src/Tests/Retrying.antt =====
-- The theorems on retries, applied to a server that is overloaded twice.
use argus_core.Common.{ℕ, ◌≡◌, Bool, some, ◌==◌, if◌then◌else◌}
use argus_core.Retry.{Outcome}
use argus_core.Http.{
  Attempt, returned, status_error, Result, absent, after, default_retry, with_retry, Retried,
  with_retry-Retried,
}
use argus_core.Notifier.Discord.{Answer, status, default_client, send_embed, Sent, send_embed-Sent}

abbrev busy_twice : ℕ → Attempt ℕ
busy_twice n =
    if n == 1
    then status_error 503 absent
    else if n == 2
    then status_error 429 (after 2000)
    else returned 7

abbrev no_jitter : ℕ → ℕ
no_jitter n = 0

with_retry-Retried_example :
    (o : Outcome (Result ℕ)) × (with_retry default_retry no_jitter busy_twice ≡ some o)
    × Retried default_retry no_jitter busy_twice o
with_retry-Retried_example = with_retry-Retried default_retry no_jitter busy_twice

abbrev limited_once : ℕ → Answer
limited_once n = if n == 1 then status 429 (after 500) else status 204 absent

send_embed-Sent_example :
    (o : Outcome Bool) × (send_embed default_client limited_once ≡ some o)
    × Sent default_client limited_once o
send_embed-Sent_example = send_embed-Sent default_client limited_once

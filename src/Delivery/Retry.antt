-- ===== src/Delivery/Retry.antt =====
-- `retry_delay_seconds` and `metric_retry_delay_seconds` of app/worker.py. Delays come out in
-- microseconds, since a jittered delay is no whole number of seconds.
use outbox_service.Prelude.{ℕ, ◌-◌, ◌*◌, ◌^◌, min, Result, ok, err, if◌then◌else◌, str_eq}
use outbox_service.Delivery.Model.{Config, Failure, unsupported_strategy}

abbrev pub second : ℕ
second = 1_000_000

-- `min(initial * 2 ** max(attempt_count - 1, 0), maximum)`, in seconds
unfoldable pub backoff_seconds : ℕ → ℕ → ℕ → ℕ
backoff_seconds initial maximum attempt_count = min (initial * 2 ^ (attempt_count - 1)) maximum

-- `uniform d` is what `random.uniform(0, d)` draws.
unfoldable pub retry_delay : Config → (ℕ → ℕ) → ℕ → Result Failure ℕ
unfolding backoff_seconds
retry_delay c uniform attempt_count =
    if str_eq c.retry_strategy "exponential"
    then (let delay = backoff_seconds c.initial_delay c.max_delay attempt_count in
        ok (if c.jitter then uniform delay else delay * second))
    else err unsupported_strategy

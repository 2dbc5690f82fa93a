-- ===== src/Delivery/Backoff.antt =====
-- How a failure is recorded, and how long a failing delivery waits for its next attempt.
use native.Mathlib.Nat.{pow-le-pow_right}
use outbox_service.Prelude.{
  min, ℕ, ◌+◌, ◌-◌, ◌*◌, ◌^◌, ◌≤◌, ◌≡◌, refl, true, none, some, ok, inl, inr, arith, Bool-cases,
  leb, if◌then◌else◌, str_eq, truncate,
}
use outbox_service.Delivery.Model.{
  EventDelivery, Failure, Config, Platform, Attempt, failed, dead_letter,
}
use outbox_service.Delivery.Worker.{failed_row}
use outbox_service.Delivery.Retry.{backoff_seconds, retry_delay, second}

mul_mono : (i x y : ℕ) → x ≤ y → i * x ≤ i * y
mul_mono i x y h = grind arith

-- The delay between attempts starts at the initial delay or the maximum, never falls as attempts go
-- on, and never passes the maximum.
pub backoff_seconds_bounds :
    (initial maximum m n : ℕ)
    → m ≤ n
    → (backoff_seconds initial maximum m ≤ backoff_seconds initial maximum n)
      × (backoff_seconds initial maximum n ≤ maximum)
      × (backoff_seconds initial maximum 1 ≡ min initial maximum)
unfolding backoff_seconds
backoff_seconds_bounds initial maximum m n h = (
  omega (
    arith,
    mul_mono initial (2 ^ (m - 1)) (2 ^ (n - 1)) (pow-le-pow_right (omega arith) (omega arith)),
  ),
  omega arith,
  omega arith,
)

-- A retry is scheduled at most the maximum delay ahead, with or without jitter, if the jitter drawn
-- lies in the range asked for.
pub retry_delay-le-max :
    (c : Config) (uniform : ℕ → ℕ) (n : ℕ) {t : ℕ}
    → ((d : ℕ) → uniform d ≤ d * second)
    → retry_delay c uniform n ≡ ok t
    → t ≤ c.max_delay * second
unfolding retry_delay backoff_seconds
retry_delay-le-max c uniform n h e =
    ground (arith, h (min (c.initial_delay * 2 ^ (n - 1)) c.max_delay))

-- With the exponential strategy a failure is always recorded: one more attempt, the text of the error
-- cut to 1000 characters, and DEAD_LETTER exactly when the attempts reach the maximum.
pub failed_row_exact :
    (c : Config) (p : Platform) (a : Attempt) (f : Failure) (d : EventDelivery)
    → str_eq c.retry_strategy "exponential" ≡ true
    → (d' : EventDelivery) × (failed_row c p a f d ≡ ok d')
      × (d'.attempt_count ≡ d.attempt_count + 1)
      × (d'.status ≡ (if leb c.max_attempts (d.attempt_count + 1) then dead_letter else failed))
      × (d'.last_error ≡ some (truncate 1000 (p.describe f)))
      × (d'.id ≡ d.id)
unfolding failed_row retry_delay
failed_row_exact c p a f d h = elim (Bool-cases (leb c.max_attempts (d.attempt_count + 1))) [
  | inl last ↦ (
    record d {
      status = dead_letter;
      attempt_count = d.attempt_count + 1;
      last_error = some (truncate 1000 (p.describe f));
      next_attempt_at = none;
    },
    ground arith,
    refl,
    ground arith,
    refl,
    refl,
  )
  | inr more ↦
      let seconds = backoff_seconds c.initial_delay c.max_delay (d.attempt_count + 1) in
      (
        record d {
          status = failed;
          attempt_count = d.attempt_count + 1;
          last_error = some (truncate 1000 (p.describe f));
          next_attempt_at =
              some (a.now + (if c.jitter then a.uniform seconds else seconds * second));
        },
        ground arith,
        refl,
        ground arith,
        refl,
        refl,
      )
]

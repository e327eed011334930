-- ===== src/Egress/Judge/Breaker.antt =====
-- The circuit breaker. Instants are numbers of nanoseconds, and the failure count is a `u32`.
pub mod Closing
pub mod Concurrent
use zeptocapsule.Common.{
  ℕ, zero, ◌+◌, ◌%◌, ◌*◌, ◌^◌, Bool, true, false, Option, none, some, ltb, leb, if◌then◌else◌,
}

abbrev pub breaker_failure_threshold : ℕ
breaker_failure_threshold = 5

abbrev pub breaker_open_duration : ℕ
breaker_open_duration = 10 * 1_000_000_000

pub record CircuitBreaker : Type 0 where
  pub consecutive_failures : ℕ
  pub open_until : Option ℕ

abbrev pub new : CircuitBreaker
new = record { consecutive_failures = 0; open_until = none }

abbrev allow_at : ℕ → CircuitBreaker → Option ℕ → CircuitBreaker × Bool
allow_at now b none = (b, true)
allow_at now b (some until) =
    if ltb now until
    then (b, false)
    else (record b { open_until = none; consecutive_failures = 0 }, true)

-- `now` is what `Instant::now()` gives.
unfoldable pub allow_call : ℕ → CircuitBreaker → CircuitBreaker × Bool
allow_call now b = allow_at now b b.open_until

unfoldable pub record_success : CircuitBreaker → CircuitBreaker
record_success b = record b { consecutive_failures = 0; open_until = none }

unfoldable pub record_failure : ℕ → CircuitBreaker → CircuitBreaker
record_failure now b =
    let failures = (b.consecutive_failures + 1) % 2 ^ 32 in
    if leb breaker_failure_threshold failures
    then record { consecutive_failures = failures; open_until = some (now + breaker_open_duration) }
    else record b { consecutive_failures = failures }

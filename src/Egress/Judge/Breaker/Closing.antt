-- ===== src/Egress/Judge/Breaker/Closing.antt =====
-- When the breaker opens, and when it closes again.
use zeptocapsule.Common.{
  ℕ, suc, ◌+◌, ◌<◌, ◌^◌, ◌≡◌, refl, true, false, ◌||◌, none, some, List, [], ◌∷◌, arith, ltb, leb,
  length, if◌then◌else◌,
}
use zeptocapsule.Egress.Judge.Breaker.{
  CircuitBreaker, new, breaker_failure_threshold, breaker_open_duration, allow_call, record_failure,
}

-- the breaker after failures at the given times, the latest first
pub fail_all : List ℕ → CircuitBreaker → CircuitBreaker
fail_all [] b = b
fail_all (t ∷ ts) b = record_failure t (fail_all ts b)

fail_all-count :
    (ts : List ℕ) → length ts < 2 ^ 32 → (fail_all ts new).consecutive_failures ≡ length ts
unfolding fail_all record_failure
fail_all-count [] h = refl
fail_all-count (t ∷ ts) h = ground (arith, fail_all-count ts)

fail_all_closed :
    (ts : List ℕ) → length ts < breaker_failure_threshold → (fail_all ts new).open_until ≡ none
unfolding fail_all record_failure
fail_all_closed [] h = refl
fail_all_closed (t ∷ ts) h = ground (arith, fail_all_closed ts, fail_all-count ts)

-- Fewer than five failures in a row leave the breaker closed; from five on it refuses every call
-- until ten seconds after the latest one. The count of failures is below 2^32.
pub allow_call-fail_all :
    (t : ℕ) (ts : List ℕ) (now : ℕ)
    → suc (length ts) < 2 ^ 32
    → (allow_call now (fail_all (t ∷ ts) new)).1
      ≡ (ltb (suc (length ts)) breaker_failure_threshold || leb (t + breaker_open_duration) now)
unfolding allow_call fail_all record_failure
allow_call-fail_all t ts now h = ground (arith, fail_all_closed ts, fail_all-count ts)

-- A success, or a call that is admitted while the breaker is open, starts the count anew.
pub allow_call_reopens :
    (b : CircuitBreaker) (now until : ℕ)
    → b.open_until ≡ some until
    → allow_call now b ≡ (if ltb now until then (b, false) else (new, true))
unfolding allow_call
allow_call_reopens b now until h = ground arith

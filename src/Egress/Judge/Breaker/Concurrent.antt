-- ===== src/Egress/Judge/Breaker/Concurrent.antt =====
-- Many requests share one breaker: each takes the lock to ask for its call, makes the call without
-- the lock, and takes the lock again to record how it ended.
use zeptocapsule.Common.{
  ℕ, suc, ◌+◌, ◌≤◌, ◌<◌, ◌≡◌, true, false, none, some, arith, Option-cases, inl, inr,
}
use zeptocapsule.Egress.Judge.Breaker.{
  CircuitBreaker, new, breaker_failure_threshold, breaker_open_duration, allow_call, record_success,
  record_failure,
}

-- `clock` is the current instant; `in_flight` counts the calls admitted and not yet recorded. Two
-- fields of the history: the failures since the last success or reset, and the latest of them.
pub record System : Type 0 where
  pub breaker : CircuitBreaker
  pub clock : ℕ
  pub in_flight : ℕ
  pub failures : ℕ
  pub last_failure : ℕ

abbrev pub start : ℕ → System
start t = record { breaker = new; clock = t; in_flight = 0; failures = 0; last_failure = t }

pub data Step : System → System → Type 0 where
  tick : (s : System) (t : ℕ) → s.clock ≤ t → Step s (record s { clock = t })
  refuse : (s : System) → (allow_call s.clock s.breaker).1 ≡ false → Step s s
  admit :
      (s : System)
      → (allow_call s.clock s.breaker).1 ≡ true
      → s.breaker.open_until ≡ none
      → Step s
          (record s { breaker = (allow_call s.clock s.breaker).0; in_flight = suc s.in_flight })
  reset :
      (s : System) (until : ℕ)
      → (allow_call s.clock s.breaker).1 ≡ true
      → s.breaker.open_until ≡ some until
      → Step s (record s {
        breaker = (allow_call s.clock s.breaker).0;
        in_flight = suc s.in_flight;
        failures = 0;
      })
  succeed :
      (s : System) (n : ℕ)
      → s.in_flight ≡ suc n
      → Step s (record s { breaker = record_success s.breaker; in_flight = n; failures = 0 })
  fail :
      (s : System) (n : ℕ)
      → s.in_flight ≡ suc n
      → Step s (record s {
        breaker = record_failure s.clock s.breaker;
        in_flight = n;
        failures = suc s.failures;
        last_failure = s.clock;
      })

pub data Reach (s : System) : System → Type 0 where
  here : Reach s s
  next : {t u : System} → Reach s t → Step t u → Reach s u

-- What holds of a breaker whatever the order in which the calls end.
pub record IsSound (s : System) : Type 0 where
  pub counts : s.breaker.consecutive_failures ≤ s.failures
  pub closed :
      s.breaker.open_until ≡ none → s.breaker.consecutive_failures < breaker_failure_threshold
  pub opened :
      (until : ℕ)
      → s.breaker.open_until ≡ some until
      → (until ≤ s.last_failure + breaker_open_duration) × (breaker_failure_threshold ≤ s.failures)
  pub past : s.last_failure ≤ s.clock

start-IsSound : (t : ℕ) → IsSound (start t)
start-IsSound t = record {
  counts = omega arith;
  closed = λ e. omega arith;
  opened = λ u e. cc;
  past = omega arith;
}

Step-IsSound : {s t : System} → Step s t → IsSound s → IsSound t
unfolding allow_call record_success record_failure
Step-IsSound (tick s t h) v = record {
  counts = v.counts;
  closed = v.closed;
  opened = v.opened;
  past = omega arith;
}
Step-IsSound (refuse s h) v = v
Step-IsSound (admit s h e) v = record {
  counts = ground (arith, v.closed);
  closed = λ e. ground (arith, v.closed);
  opened = λ u e. ground (arith, v.opened u);
  past = v.past;
}
Step-IsSound (reset s until h e) v = record {
  counts = ground arith;
  closed = λ e. ground arith;
  opened = λ u e. ground arith;
  past = v.past;
}
Step-IsSound (succeed s n h) v = record {
  counts = omega arith;
  closed = λ e. omega arith;
  opened = λ u e. cc;
  past = v.past;
}
Step-IsSound (fail s n h) v = record {
  counts = ground (arith, v.counts);
  closed = λ e. ground (arith, v.closed);
  opened = λ u e. ground (arith, v.opened u, v.counts);
  past = omega arith;
}

Reach-IsSound : {s t : System} → IsSound s → Reach s t → IsSound t
Reach-IsSound v here = v
Reach-IsSound v (next r st) = Step-IsSound st (Reach-IsSound v r)

-- Whatever the order in which concurrent calls end: a call is refused only if at least five
-- failures were recorded since the last success or reset, the latest less than ten seconds ago.
pub refused_call :
    (t : ℕ) (s : System)
    → Reach (start t) s
    → (allow_call s.clock s.breaker).1 ≡ false
    → (breaker_failure_threshold ≤ s.failures)
      × (s.last_failure ≤ s.clock)
      × (s.clock < s.last_failure + breaker_open_duration)
unfolding allow_call
refused_call t s r h =
    let v = Reach-IsSound (start-IsSound t) r in
    let opened = v.opened in
    elim (Option-cases s.breaker.open_until) [
      | inl closed ↦ ground arith
      | inr (until, e) ↦ let (late, many) = opened until e in (many, v.past, ground arith)
    ]

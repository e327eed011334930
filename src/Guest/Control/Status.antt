-- ===== src/Guest/Control/Status.antt =====
-- The host reads the status that the guest has written.
use zeptocapsule.Common.{ℕ, ◌≤◌, ◌≡◌, ◌≢◌, refl, false, some, none, [], ◌∷◌, ◌++◌, All, ◌==◌, arith}
use zeptocapsule.Text.{
  Str, codes, is_whitespace, trim, trim_start, trim_end, decimal, starts_with, parse_uint, str_eq,
}
use zeptocapsule.Text.Decimal.{IsDigit, decimal-IsDigit, decimal-ne-nil, parse_uint-decimal}
use zeptocapsule.Capsule.{Signal, terminate, kill}
use zeptocapsule.Guest.Control.{
  control_message, forwarded, Ended, with_code, with_signal, exit_message, ControlStatus, pos,
  parse_i32, max_i32, number_after, exited, signaled, parse_exit_status,
}

trim_start-digits : (c : ℕ) (s : Str) → IsDigit c → trim_start (c ∷ s) ≡ c ∷ s
unfolding trim_start is_whitespace
trim_start-digits c s h = ground (arith, h)

trim_end-digits : (s : Str) → All IsDigit s → trim_end s ≡ s
unfolding trim_end is_whitespace
trim_end-digits [] h = refl
trim_end-digits (c ∷ []) h = ground (arith, h.0)
trim_end-digits (c ∷ d ∷ s) h = rw (trim_end-digits (d ∷ s) h.1) refl

-- white space at the end is no part of what is trimmed
trim_end-newline : (s : Str) → trim_end (s ++ codes "\n") ≡ trim_end s
unfolding trim_end is_whitespace
trim_end-newline [] = refl
trim_end-newline (c ∷ s) = rw (trim_end-newline s) refl

-- The signal that the host sends is the one that the guest forwards.
pub forwarded-control_message : (signal : Signal) → forwarded (control_message signal) ≡ some signal
unfolding forwarded control_message trim trim_start trim_end is_whitespace str_eq
forwarded-control_message terminate = refl
forwarded-control_message kill = refl

trim-digits : (s : Str) → All IsDigit s → trim s ≡ s
unfolding trim
trim-digits [] h = refl
trim-digits (c ∷ s) h = rw (trim_start-digits c s h.0) (trim_end-digits (c ∷ s) h)

not_minus : (c : ℕ) → IsDigit c → c == b'-' ≡ false
not_minus c h = ground (arith, h)

parse_i32-digits :
    (s : Str) (n : ℕ)
    → s ≢ []
    → All IsDigit s
    → parse_uint max_i32 s ≡ some n
    → parse_i32 s ≡ some (pos n)
unfolding parse_i32
parse_i32-digits [] n ne h k = absurd (ne refl)
parse_i32-digits (c ∷ []) n ne h k = rw k refl
parse_i32-digits (c ∷ d ∷ s) n ne h k = rw (not_minus c h.0, k) refl

-- a line "EXIT <digits>" or "SIGNAL <digits>" is trimmed of its end
trim-exit :
    (s : Str)
    → s ≢ []
    → All IsDigit s
    → trim (codes "EXIT " ++ (s ++ codes "\n")) ≡ codes "EXIT " ++ s
unfolding trim trim_start trim_end is_whitespace
trim-exit [] ne h = absurd (ne refl)
trim-exit (c ∷ s) ne h = rw (trim_end-newline (c ∷ s), trim_end-digits (c ∷ s) h) refl

trim-signal :
    (s : Str)
    → s ≢ []
    → All IsDigit s
    → trim (codes "SIGNAL " ++ (s ++ codes "\n")) ≡ codes "SIGNAL " ++ s
unfolding trim trim_start trim_end is_whitespace
trim-signal [] ne h = absurd (ne refl)
trim-signal (c ∷ s) ne h = rw (trim_end-newline (c ∷ s), trim_end-digits (c ∷ s) h) refl

number_after-exit :
    (s : Str) → number_after (codes "EXIT ") (codes "EXIT " ++ s) ≡ parse_i32 (trim s)
unfolding number_after starts_with
number_after-exit s = refl

number_after-signal :
    (s : Str)
    → (number_after (codes "EXIT ") (codes "SIGNAL " ++ s) ≡ none)
      × (number_after (codes "SIGNAL ") (codes "SIGNAL " ++ s) ≡ parse_i32 (trim s))
unfolding number_after starts_with
number_after-signal s = (refl, refl)

parse_i32-decimal : (n : ℕ) → n ≤ max_i32 → parse_i32 (trim (decimal n)) ≡ some (pos n)
parse_i32-decimal n h = rw (trim-digits (decimal n) (decimal-IsDigit n)) (
    parse_i32-digits (decimal n) n (decimal-ne-nil n) (decimal-IsDigit n)
      (parse_uint-decimal max_i32 n h))

-- what the host is to read
abbrev pub status : Ended → ControlStatus
status (with_code n) = exited (pos n)
status (with_signal n) = signaled (pos n)

abbrev pub number : Ended → ℕ
number (with_code n) = n
number (with_signal n) = n

-- The host reads the code or the signal that the guest has written, if it is in the range of an i32.
pub parse_exit_status-exit_message :
    (e : Ended) → number e ≤ max_i32 → parse_exit_status (exit_message e) ≡ status e
unfolding parse_exit_status exit_message
parse_exit_status-exit_message (with_code n) h =
    rw
      (
        trim-exit (decimal n) (decimal-ne-nil n) (decimal-IsDigit n),
        number_after-exit (decimal n),
        parse_i32-decimal n h,
      )
      refl
parse_exit_status-exit_message (with_signal n) h =
    let (no_code, signal) = number_after-signal (decimal n) in
    rw
      (
        trim-signal (decimal n) (decimal-ne-nil n) (decimal-IsDigit n),
        no_code,
        signal,
        parse_i32-decimal n h,
      )
      refl

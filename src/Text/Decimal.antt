-- ===== src/Text/Decimal.antt =====
-- A number is read back from its decimal text.
use zeptocapsule.Common.{
  ℕ, zero, suc, ◌+◌, ◌/◌, ◌%◌, ◌≤◌, ◌≡◌, ◌≢◌, refl, some, [], ◌∷◌, arith, All,
}
use zeptocapsule.Text.{Str, scan_digits, parse_uint, digits, decimal}

abbrev pub IsDigit : ℕ → Type 0
IsDigit c = (b'0' ≤ c) × (c ≤ b'9')

-- No character of the text is `c`.
abbrev pub Lacks : ℕ → Str → Type 0
Lacks c = All (λ d. d ≢ c)

scan-digits :
    (max fuel n : ℕ) (out : Str)
    → n ≤ fuel
    → n ≤ max
    → scan_digits max (digits fuel n out) 0 ≡ scan_digits max out n
unfolding digits scan_digits
scan-digits max zero zero out h k = refl
scan-digits max zero (suc n) out h k = absurd (omega arith)
scan-digits max (suc fuel) n out h k =
    ground (arith, scan-digits max fuel (n / 10) ((b'0' + n % 10) ∷ out))

digits-IsDigit : (fuel n : ℕ) (out : Str) → All IsDigit out → All IsDigit (digits fuel n out)
unfolding digits
digits-IsDigit zero n out h = h
digits-IsDigit (suc fuel) n out h =
    ground (arith, digits-IsDigit fuel (n / 10) ((b'0' + n % 10) ∷ out))

digits-ne-nil : (fuel n : ℕ) (c : ℕ) (out : Str) → digits fuel n (c ∷ out) ≢ []
unfolding digits
digits-ne-nil zero n c out = λ e. cc
digits-ne-nil (suc fuel) n c out =
    ground (arith, digits-ne-nil fuel (n / 10) (b'0' + n % 10) (c ∷ out))

pub decimal-IsDigit : (n : ℕ) → All IsDigit (decimal n)
unfolding decimal
decimal-IsDigit n = ground (arith, digits-IsDigit n n [] tt)

pub decimal-ne-nil : (n : ℕ) → decimal n ≢ []
unfolding decimal
decimal-ne-nil zero = λ e. cc
decimal-ne-nil (suc n) = ground (arith, digits-ne-nil n (suc n / 10) (b'0' + suc n % 10) [])

-- a digit is no sign
parse_uint-scan :
    (max : ℕ) (s : Str) → s ≢ [] → All IsDigit s → parse_uint max s ≡ scan_digits max s 0
unfolding parse_uint
parse_uint-scan max [] ne h = absurd (ne refl)
parse_uint-scan max (c ∷ []) ne h = refl
parse_uint-scan max (c ∷ d ∷ s) ne h = ground arith

scan-decimal : (max n : ℕ) → n ≤ max → scan_digits max (decimal n) 0 ≡ some n
unfolding decimal scan_digits
scan-decimal max n h = ground (arith, scan-digits max n n [])

-- The decimal text of a number that the type can hold is parsed to that number.
pub parse_uint-decimal : (max n : ℕ) → n ≤ max → parse_uint max (decimal n) ≡ some n
parse_uint-decimal max n h =
    rw (parse_uint-scan max (decimal n) (decimal-ne-nil n) (decimal-IsDigit n))
      (scan-decimal max n h)

IsDigit-Lacks : (c : ℕ) → ¬ IsDigit c → (s : Str) → All IsDigit s → Lacks c s
IsDigit-Lacks c n [] h = tt
IsDigit-Lacks c n (d ∷ s) h = (λ e. n (rw (← e) h.0), IsDigit-Lacks c n s h.1)

-- The decimal text holds digits only.
pub decimal-Lacks : (c n : ℕ) → ¬ IsDigit c → Lacks c (decimal n)
decimal-Lacks c n h = IsDigit-Lacks c h (decimal n) (decimal-IsDigit n)

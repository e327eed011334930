-- ===== src/Egress/Slots/Bits.antt =====
-- Single bits of a word, from the least significant digit on: `n & (1 << s)`, `n | (1 << s)` and
-- `n & !(1 << s)`.
use zeptocapsule.Common.{
  ℕ, zero, suc, ◌+◌, ◌*◌, ◌/◌, ◌%◌, ◌<◌, ◌≡◌, ◌≢◌, refl, Bool, true, false, ◌==◌, arith,
}

unfoldable pub test_bit : ℕ → ℕ → Bool
test_bit zero n = n % 2 == 1
test_bit (suc s) n = test_bit s (n / 2)

unfoldable pub set_bit : ℕ → ℕ → ℕ
set_bit zero n = n / 2 * 2 + 1
set_bit (suc s) n = set_bit s (n / 2) * 2 + n % 2

unfoldable pub clear_bit : ℕ → ℕ → ℕ
clear_bit zero n = n / 2 * 2
clear_bit (suc s) n = clear_bit s (n / 2) * 2 + n % 2

half : (a b : ℕ) → b < 2 → (a * 2 + b) / 2 ≡ a
half a b h = omega arith

pub test_bit-set_bit : (s n : ℕ) → test_bit s (set_bit s n) ≡ true
unfolding test_bit set_bit
test_bit-set_bit zero n = ground arith
test_bit-set_bit (suc s) n =
    rw (half (set_bit s (n / 2)) (n % 2) (omega arith)) (test_bit-set_bit s (n / 2))

pub test_bit-set_bit_other : (s t n : ℕ) → s ≢ t → test_bit s (set_bit t n) ≡ test_bit s n
unfolding test_bit set_bit
test_bit-set_bit_other zero zero n h = absurd (h refl)
test_bit-set_bit_other zero (suc t) n h = ground arith
test_bit-set_bit_other (suc s) zero n h =
    let e : (n / 2 * 2 + 1) / 2 ≡ n / 2 = omega arith in rw e refl
test_bit-set_bit_other (suc s) (suc t) n h =
    rw (half (set_bit t (n / 2)) (n % 2) (omega arith))
      (test_bit-set_bit_other s t (n / 2) (λ e. h (cc e)))

pub test_bit-clear_bit : (s n : ℕ) → test_bit s (clear_bit s n) ≡ false
unfolding test_bit clear_bit
test_bit-clear_bit zero n = ground arith
test_bit-clear_bit (suc s) n =
    rw (half (clear_bit s (n / 2)) (n % 2) (omega arith)) (test_bit-clear_bit s (n / 2))

pub test_bit-clear_bit_other : (s t n : ℕ) → s ≢ t → test_bit s (clear_bit t n) ≡ test_bit s n
unfolding test_bit clear_bit
test_bit-clear_bit_other zero zero n h = absurd (h refl)
test_bit-clear_bit_other zero (suc t) n h = ground arith
test_bit-clear_bit_other (suc s) zero n h = let e : n / 2 * 2 / 2 ≡ n / 2 = omega arith in rw e refl
test_bit-clear_bit_other (suc s) (suc t) n h =
    rw (half (clear_bit t (n / 2)) (n % 2) (omega arith))
      (test_bit-clear_bit_other s t (n / 2) (λ e. h (cc e)))

-- A bit that was clear is cleared again.
pub clear_bit-set_bit : (s n : ℕ) → test_bit s n ≡ false → clear_bit s (set_bit s n) ≡ n
unfolding test_bit set_bit clear_bit
clear_bit-set_bit zero n h = ground arith
clear_bit-set_bit (suc s) n h =
    let low : (set_bit s (n / 2) * 2 + n % 2) % 2 ≡ n % 2 = omega arith in
    rw (half (set_bit s (n / 2)) (n % 2) (omega arith), low, clear_bit-set_bit s (n / 2) h)
      (omega arith)

pub test_bit-zero : (s : ℕ) → test_bit s 0 ≡ false
unfolding test_bit
test_bit-zero zero = refl
test_bit-zero (suc s) = test_bit-zero s

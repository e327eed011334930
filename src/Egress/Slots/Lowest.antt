-- ===== src/Egress/Slots/Lowest.antt =====
-- A round of the allocator takes the lowest clear bit.
use zeptocapsule.Common.{
  ℕ, zero, suc, ◌+◌, ◌≤◌, ◌<◌, ◌≡◌, refl, ◌⊎◌, inl, inr, true, false, Bool-cases, ==_iff, ◌==◌,
  Option, none, some, arith,
}
use zeptocapsule.Egress.Slots.{
  pool_size, find_from, find_slot, exhausted, retry, taken, exchange, round,
}
use zeptocapsule.Egress.Slots.Bits.{test_bit, set_bit}

-- A number from `s` on is `s` or is from its successor on.
from_cases : (s t : ℕ) → s ≤ t → (t ≡ s) ⊎ (s + 1 ≤ t)
from_cases s t low = elim (Bool-cases (t == s)) [
  | inl same ↦ inl ((==_iff t s).0 same)
  | inr other ↦ inr (ground arith)
]

find_from-eq-some :
    (n s bits slot : ℕ)
    → find_from n s bits ≡ some slot
    → (test_bit slot bits ≡ false)
      × (slot < s + n)
      × ((t : ℕ) → s ≤ t → t < slot → test_bit t bits ≡ true)
unfolding find_from
find_from-eq-some zero s bits slot h = cc
find_from-eq-some (suc n) s bits slot h = elim (Bool-cases (test_bit s bits)) [
  | inl busy ↦
      let (free, high, below) = find_from-eq-some n (s + 1) bits slot (rw busy at h) in
      (
        free,
        omega (arith, high),
        λ t low less. elim (from_cases s t low) [
          | inl e ↦ rw e busy
          | inr later ↦ below t later less
        ],
      )
  | inr free ↦
      let e : s ≡ slot = (let k : ◌≡◌ {A = Option ℕ} (some s) (some slot) = rw free at h in cc) in
      (rw (← e) free, omega (arith, e), λ t low less. absurd (omega (arith, e, low, less)))
]

pub find_from-eq-none :
    (n s bits t : ℕ) → find_from n s bits ≡ none → s ≤ t → t < s + n → test_bit t bits ≡ true
unfolding find_from
find_from-eq-none zero s bits t h low high = absurd (omega arith)
find_from-eq-none (suc n) s bits t h low high = elim (Bool-cases (test_bit s bits)) [
  | inl busy ↦ elim (from_cases s t low) [
    | inl e ↦ rw e busy
    | inr later ↦ find_from-eq-none n (s + 1) bits t (rw busy at h) later (omega arith)
  ]
  | inr free ↦ (let k : ◌≡◌ {A = Option ℕ} (some s) none = rw free at h in cc)
]

-- How an exchange that takes a slot went.
exchange-eq-taken :
    (loaded current slot bits : ℕ) (found : Option ℕ)
    → exchange loaded current found ≡ taken slot bits
    → (loaded ≡ current) × (found ≡ some slot) × (bits ≡ set_bit slot loaded)
unfolding exchange
exchange-eq-taken loaded current slot bits none h = cc
exchange-eq-taken loaded current slot bits (some t) h = elim (Bool-cases (current == loaded)) [
  | inl same ↦
      let k : taken t (set_bit t loaded) ≡ taken slot bits = rw same at h in
      let e : t ≡ slot = cc in (cc ((==_iff current loaded).0 same), cc, cc)
  | inr other ↦ (let k : retry ≡ taken slot bits = rw other at h in cc)
]

pub exchange-eq-exhausted :
    (loaded current : ℕ) (found : Option ℕ)
    → exchange loaded current found ≡ exhausted
    → found ≡ none
unfolding exchange
exchange-eq-exhausted loaded current none h = refl
exchange-eq-exhausted loaded current (some t) h = elim (Bool-cases (current == loaded)) [
  | inl same ↦ (let k : taken t (set_bit t loaded) ≡ exhausted = rw same at h in cc)
  | inr other ↦ (let k : retry ≡ exhausted = rw other at h in cc)
]

-- A round that takes a slot takes the lowest clear bit of the current word.
pub round-eq-taken :
    (loaded current slot bits : ℕ)
    → round loaded current ≡ taken slot bits
    → (test_bit slot current ≡ false)
      × (slot < pool_size)
      × ((t : ℕ) → t < slot → test_bit t current ≡ true)
      × (bits ≡ set_bit slot current)
unfolding round find_slot
round-eq-taken loaded current slot bits h =
    let (same, found, new) = exchange-eq-taken loaded current slot bits (find_slot loaded) h in
    let (free, high, below) = find_from-eq-some pool_size 0 loaded slot found in
    (
      cc (free, same),
      omega (arith, high),
      (λ t less. cc (below t (omega arith) less, same)),
      cc (new, same),
    )

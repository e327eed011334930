-- ===== src/Egress/Slots.antt =====
-- src/egress/netns.rs and src/egress/fc_net.rs: the pool of 64 slots, a word that is changed atomically.
pub mod Bits
pub mod Held
pub mod Lowest
pub mod Unique
mod Tests
use zeptocapsule.Common.{
  ℕ, zero, suc, ◌+◌, Bool, Option, none, some, List, [], ◌∷◌, ltb, ◌==◌, if◌then◌else◌,
}
use zeptocapsule.Common.Result.{Result, ok, err}
use zeptocapsule.Text.{Str}
use zeptocapsule.Egress.Slots.Bits.{test_bit, set_bit, clear_bit}

abbrev pub pool_size : ℕ
pool_size = 64

-- the first clear bit of `n` ones from `s` on
unfoldable pub find_from : ℕ → ℕ → ℕ → Option ℕ
find_from zero s bits = none
find_from (suc n) s bits =
    let rest = find_from n (s + 1) bits in if test_bit s bits then rest else some s

unfoldable pub find_slot : ℕ → Option ℕ
find_slot bits = find_from pool_size 0 bits

-- How one round of the loop ends.
pub data Round : Type 0 where
  exhausted : Round
  retry : Round
  taken : (slot bits : ℕ) → Round

-- the exchange, which succeeds if the word is still as it was loaded
unfoldable pub exchange : (loaded current : ℕ) → Option ℕ → Round
exchange loaded current none = exhausted
exchange loaded current (some slot) =
    if current == loaded then taken slot (set_bit slot loaded) else retry

-- One round: `loaded` is the word at the load, `current` at the exchange; others may change it between.
unfoldable pub round : (loaded current : ℕ) → Round
round loaded current = exchange loaded current (find_slot loaded)

unfoldable pub release_slot : ℕ → ℕ → ℕ
release_slot slot bits = if ltb slot pool_size then clear_bit slot bits else bits

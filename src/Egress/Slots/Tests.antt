-- ===== src/Egress/Slots/Tests.antt =====
-- Two callers: the second takes slot 1 while the first holds slot 0.
use zeptocapsule.Common.{ℕ, ◌<◌, ◌≡◌, refl, [], ◌∷◌}
use zeptocapsule.Egress.Slots.{pool_size, taken, retry, round, exchange, find_from, find_slot}
use zeptocapsule.Egress.Slots.Held.{Member}
use zeptocapsule.Egress.Slots.Unique.{
  Pool, Reachable, start, step, acquire, IsPool, Reachable-IsPool, Reachable-taken,
}
use zeptocapsule.Egress.Slots.Bits.{set_bit, test_bit}

first_round : round 0 0 ≡ taken 0 1
unfolding round exchange find_slot find_from test_bit set_bit
first_round = refl

second_round : round 1 1 ≡ taken 1 3
unfolding round exchange find_slot find_from test_bit set_bit
second_round = refl

-- the word has changed since the load
lost_round : round 0 1 ≡ retry
unfolding round exchange find_slot find_from test_bit
lost_round = refl

abbrev one_held : Pool
one_held = record { bits = 1; held = 0 ∷ [] }

one_held-Reachable : Reachable one_held
one_held-Reachable = step _ _ start (acquire _ 0 0 1 first_round)

Reachable-IsPool_example : IsPool one_held
Reachable-IsPool_example = Reachable-IsPool one_held one_held-Reachable

Reachable-taken_example :
    ¬ Member 1 one_held.held × (1 < pool_size) × ((t : ℕ) → t < 1 → Member t one_held.held)
Reachable-taken_example = Reachable-taken one_held 1 1 3 one_held-Reachable second_round

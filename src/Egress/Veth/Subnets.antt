-- ===== src/Egress/Veth/Subnets.antt =====
-- The addresses of different slots are different.
use zeptocapsule.Common.{ℕ, ◌+◌, ◌*◌, ◌/◌, ◌<◌, ◌≡◌, ◌≢◌, arith}
use zeptocapsule.Egress.Ssrf.{bits4}
use zeptocapsule.Egress.Slots.{pool_size}
use zeptocapsule.Egress.Veth.{base_of, from_slot}

base_of_lem : (slot : ℕ) → slot < pool_size → base_of slot ≡ slot * 4
base_of_lem slot h = ground arith

-- The host has the first and the guest the second address of the slot's /30 network, which is the one
-- at four times the slot in 169.254.32.0/24.
pub from_slot_lem :
    (slot : ℕ)
    → slot < pool_size
    → (bits4 (from_slot slot).host_ip ≡ ((169 * 256 + 254) * 256 + 32) * 256 + slot * 4 + 1)
      × (bits4 (from_slot slot).guest_ip ≡ ((169 * 256 + 254) * 256 + 32) * 256 + slot * 4 + 2)
unfolding from_slot
from_slot_lem slot h = rw (base_of_lem slot h) (omega (arith, h), omega (arith, h))

-- Two slots of the pool have different /30 networks, each with both addresses of its slot.
pub from_slot_disjoint :
    (s t : ℕ)
    → s < pool_size
    → t < pool_size
    → s ≢ t
    → (bits4 (from_slot s).host_ip / 4 ≡ bits4 (from_slot s).guest_ip / 4)
      × (bits4 (from_slot s).host_ip ≢ bits4 (from_slot s).guest_ip)
      × (bits4 (from_slot s).host_ip / 4 ≢ bits4 (from_slot t).host_ip / 4)
from_slot_disjoint s t h k apart =
    let (host, guest) = from_slot_lem s h in
    let (host_t, guest_t) = from_slot_lem t k in
    (
      rw (host, guest) (omega arith),
      (λ e. absurd (omega (arith, host, guest, e))),
      λ e. apart (omega (arith, host, host_t, e)),
    )

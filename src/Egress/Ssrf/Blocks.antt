-- ===== src/Egress/Ssrf/Blocks.antt =====
-- The IPv4 addresses that are refused are those of a list of networks, and no others.
use zeptocapsule.Common.{
  ℕ, ◌-◌, ◌/◌, ◌^◌, ◌<◌, ◌≡◌, ◌↔◌, ◌⊎◌, Bool, true, ◌||◌, List, [], ◌∷◌, arith, leb,
}
use zeptocapsule.Egress.Ssrf.{
  Ipv4, v4, ipv4, bits4, Ipnet, IsIpnet, v4_eq, is_loopback, is_private, is_link_local,
  is_multicast, is_broadcast, is_unspecified, is_documentation, aws_v4_metadata, classify_v4,
  classify_ip, is_private_or_metadata,
}

-- The address has the first `p` bits of `base`.
abbrev pub InBlock : Ipv4 → ℕ → Ipv4 → Type 0
InBlock base p ip = bits4 ip / 2 ^ (32 - p) ≡ bits4 base / 2 ^ (32 - p)

abbrev pub InSome : List (Ipv4 × ℕ) → Ipv4 → Type 0
InSome [] ip = ⊥
InSome ((base, p) ∷ blocks) ip = InBlock base p ip ⊎ InSome blocks ip

-- loopback, private, link-local with the metadata address, multicast, reserved, unspecified,
-- documentation, carrier-grade NAT, protocol assignments and benchmarks
abbrev pub blocked : List (Ipv4 × ℕ)
blocked =
    (ipv4 127 0 0 0, 8)
    ∷ (ipv4 10 0 0 0, 8)
    ∷ (ipv4 172 16 0 0, 12)
    ∷ (ipv4 192 168 0 0, 16)
    ∷ (ipv4 169 254 0 0, 16)
    ∷ (ipv4 224 0 0 0, 4)
    ∷ (ipv4 240 0 0 0, 4)
    ∷ (ipv4 0 0 0 0, 32)
    ∷ (ipv4 192 0 2 0, 24)
    ∷ (ipv4 198 51 100 0, 24)
    ∷ (ipv4 203 0 113 0, 24)
    ∷ (ipv4 100 64 0 0, 10)
    ∷ (ipv4 192 0 0 0, 24)
    ∷ (ipv4 198 18 0 0, 15)
    ∷ []

pub record IsIpv4 (ip : Ipv4) : Type 0 where
  pub a_lt : ip.a < 256
  pub b_lt : ip.b < 256
  pub c_lt : ip.c < 256
  pub d_lt : ip.d < 256

module _ (ip : Ipv4) (w : IsIpv4 ip) where
  loopback_iff : (is_loopback ip ≡ true) ↔ InBlock (ipv4 127 0 0 0) 8 ip
  unfolding is_loopback
  loopback_iff = (λ h. ground arith, λ h. ground arith)

  private_iff : (is_private ip ≡ true) ↔ (
      InBlock (ipv4 10 0 0 0) 8 ip
      ⊎ InBlock (ipv4 172 16 0 0) 12 ip
      ⊎ InBlock (ipv4 192 168 0 0) 16 ip)
  unfolding is_private
  private_iff = (λ h. ground arith, λ h. ground arith)

  link_local_iff : (is_link_local ip ≡ true) ↔ InBlock (ipv4 169 254 0 0) 16 ip
  unfolding is_link_local
  link_local_iff = (λ h. ground arith, λ h. ground arith)

  multicast_iff : (is_multicast ip ≡ true) ↔ InBlock (ipv4 224 0 0 0) 4 ip
  unfolding is_multicast
  multicast_iff = (λ h. ground arith, λ h. ground arith)

  metadata→link_local : v4_eq ip aws_v4_metadata ≡ true → InBlock (ipv4 169 254 0 0) 16 ip
  metadata→link_local h = ground arith

  broadcast→high : is_broadcast ip ≡ true → InBlock (ipv4 240 0 0 0) 4 ip
  unfolding is_broadcast
  broadcast→high h = ground arith

  unspecified_iff : (is_unspecified ip ≡ true) ↔ InBlock (ipv4 0 0 0 0) 32 ip
  unfolding is_unspecified
  unspecified_iff = (λ h. ground arith, λ h. ground arith)

  documentation_iff : (is_documentation ip ≡ true) ↔ (
      InBlock (ipv4 192 0 2 0) 24 ip
      ⊎ InBlock (ipv4 198 51 100 0) 24 ip
      ⊎ InBlock (ipv4 203 0 113 0) 24 ip)
  unfolding is_documentation
  documentation_iff = (λ h. ground arith, λ h. ground arith)

  high_iff : (leb 240 ip.a ≡ true) ↔ InBlock (ipv4 240 0 0 0) 4 ip
  high_iff = (λ h. ground arith, λ h. ground arith)

-- The tests of `classify_v4` in their order, as one disjunction.
tests4 : Ipnet → Ipv4 → Bool
tests4 n ip =
    v4_eq ip aws_v4_metadata
    || is_loopback ip
    || is_private ip
    || is_link_local ip
    || is_multicast ip
    || is_broadcast ip
    || is_unspecified ip
    || is_documentation ip
    || n.net4 (ipv4 100 64 0 0) 10 ip
    || leb 240 ip.a
    || n.net4 (ipv4 192 0 0 0) 24 ip
    || n.net4 (ipv4 198 18 0 0) 15 ip

blocks_tests : (n : Ipnet) (ip : Ipv4) → is_private_or_metadata n (v4 ip) ≡ tests4 n ip
unfolding is_private_or_metadata classify_ip classify_v4 tests4
blocks_tests n ip = ground arith

module _ (n : Ipnet) (laws : IsIpnet n) (ip : Ipv4) (w : IsIpv4 ip) where
  tests4-InSome : tests4 n ip ≡ true → InSome blocked ip
  unfolding tests4
  tests4-InSome h = ground (
    arith,
    metadata→link_local ip w,
    (loopback_iff ip w).0,
    (private_iff ip w).0,
    (link_local_iff ip w).0,
    (multicast_iff ip w).0,
    broadcast→high ip w,
    (unspecified_iff ip w).0,
    (documentation_iff ip w).0,
    (high_iff ip w).0,
    (laws.net4_iff (ipv4 100 64 0 0) 10 ip (omega arith)).0,
    (laws.net4_iff (ipv4 192 0 0 0) 24 ip (omega arith)).0,
    (laws.net4_iff (ipv4 198 18 0 0) 15 ip (omega arith)).0,
  )

  InSome-tests4 : InSome blocked ip → tests4 n ip ≡ true
  unfolding tests4
  InSome-tests4 h = ground (
    arith,
    (loopback_iff ip w).1,
    (private_iff ip w).1,
    (link_local_iff ip w).1,
    (multicast_iff ip w).1,
    (unspecified_iff ip w).1,
    (documentation_iff ip w).1,
    (high_iff ip w).1,
    (laws.net4_iff (ipv4 100 64 0 0) 10 ip (omega arith)).1,
    (laws.net4_iff (ipv4 192 0 0 0) 24 ip (omega arith)).1,
    (laws.net4_iff (ipv4 198 18 0 0) 15 ip (omega arith)).1,
  )

  -- An IPv4 address with octets below 256 is refused exactly if it lies in one of the fourteen
  -- blocked networks, with `contains` as ipnet documents it.
  pub refused-InSome : (is_private_or_metadata n (v4 ip) ≡ true) ↔ InSome blocked ip
  refused-InSome = rw (blocks_tests n ip) (tests4-InSome, InSome-tests4)

-- ===== src/Egress/Ssrf/Mapped.antt =====
-- IPv6: the addresses that are refused, and the IPv4 addresses written inside an IPv6 address.
use zeptocapsule.Common.{
  ℕ, ◌+◌, ◌-◌, ◌*◌, ◌/◌, ◌^◌, ◌<◌, ◌≡◌, ◌↔◌, ◌⊎◌, inl, inr, true, false, none, some, arith,
  Option-cases,
}
use zeptocapsule.Egress.Ssrf.{
  Ipv4, Ipv6, v4, v6, high6, low6, v6_eq, Ipnet, IsIpnet, is_public, aws_v6_metadata, is_loopback6,
  is_unspecified6, is_multicast6, to_ipv4_mapped, classify_v6, classify_v6_net, classify_ip,
  is_private_or_metadata,
}
use zeptocapsule.Egress.Ssrf.Blocks.{IsIpv4, InSome, blocked, refused-InSome}

-- `::ffff:a.b.c.d`
abbrev pub mapped : Ipv4 → Ipv6
mapped ip = record {
  s0 = 0;
  s1 = 0;
  s2 = 0;
  s3 = 0;
  s4 = 0;
  s5 = 0xffff;
  s6 = ip.a * 256 + ip.b;
  s7 = ip.c * 256 + ip.d;
}

to_ipv4_mapped-mapped : (ip : Ipv4) → IsIpv4 ip → to_ipv4_mapped (mapped ip) ≡ some ip
unfolding to_ipv4_mapped
to_ipv4_mapped-mapped ip w = ground arith

-- An IPv4 address and its IPv4-mapped IPv6 address have the same class.
pub classify-mapped :
    (n : Ipnet) (ip : Ipv4) → IsIpv4 ip → classify_ip n (v6 (mapped ip)) ≡ classify_ip n (v4 ip)
unfolding classify_ip classify_v6 is_loopback6 is_unspecified6 is_multicast6
classify-mapped n ip w = ground (arith, to_ipv4_mapped-mapped ip w)

pub record IsIpv6 (ip : Ipv6) : Type 0 where
  pub s0_lt : ip.s0 < 65536
  pub s1_lt : ip.s1 < 65536
  pub s6_lt : ip.s6 < 65536
  pub s7_lt : ip.s7 < 65536

-- The address has the first `p` bits of the one whose first two segments are `s0` and `s1`.
abbrev pub InBlock6 : ℕ → ℕ → ℕ → Ipv6 → Type 0
InBlock6 s0 s1 p ip = high6 ip / 2 ^ (32 - p) ≡ (s0 * 65536 + s1) / 2 ^ (32 - p)

-- unspecified, loopback, multicast, link-local, unique local with the metadata address, and
-- documentation; or an IPv4-mapped address whose IPv4 address is blocked
abbrev pub Blocked6 : Ipv6 → Type 0
Blocked6 ip =
    (ip ≡ low6 0)
    ⊎ (ip ≡ low6 1)
    ⊎ InBlock6 0xff00 0 8 ip
    ⊎ InBlock6 0xfe80 0 10 ip
    ⊎ InBlock6 0xfc00 0 7 ip
    ⊎ InBlock6 0x2001 0xdb8 32 ip
    ⊎ ((a : Ipv4) × (to_ipv4_mapped ip ≡ some a) × InSome blocked a)

mapped-IsIpv4 : (ip : Ipv6) → IsIpv6 ip → (a : Ipv4) → to_ipv4_mapped ip ≡ some a → IsIpv4 a
unfolding to_ipv4_mapped
mapped-IsIpv4 ip w a h = ground arith

mapped_zero : (ip : Ipv6) (a : Ipv4) → to_ipv4_mapped ip ≡ some a → (high6 ip ≡ 0) × (ip.s5 ≡ 65535)
unfolding to_ipv4_mapped
mapped_zero ip a h = ground arith

module _ (n : Ipnet) (laws : IsIpnet n) (ip : Ipv6) (w : IsIpv6 ip) where
  loopback6_iff : (is_loopback6 ip ≡ true) ↔ (ip ≡ low6 1)
  unfolding is_loopback6
  loopback6_iff = (λ h. ground arith, λ h. ground arith)

  unspecified6_iff : (is_unspecified6 ip ≡ true) ↔ (ip ≡ low6 0)
  unfolding is_unspecified6
  unspecified6_iff = (λ h. ground arith, λ h. ground arith)

  multicast6_iff : (is_multicast6 ip ≡ true) ↔ InBlock6 0xff00 0 8 ip
  unfolding is_multicast6
  multicast6_iff = (λ h. ground arith, λ h. ground arith)

  metadata6→unique_local : v6_eq ip aws_v6_metadata ≡ true → InBlock6 0xfc00 0 7 ip
  metadata6→unique_local h = ground arith

  net_iff :
      (is_public (classify_v6_net n ip) ≡ false)
      ↔ (InBlock6 0xfe80 0 10 ip ⊎ InBlock6 0xfc00 0 7 ip ⊎ InBlock6 0x2001 0xdb8 32 ip)
  unfolding classify_v6_net is_public
  net_iff =
      let link = laws.net6_iff 0xfe80 0 10 ip (omega arith) in
      let local = laws.net6_iff 0xfc00 0 7 ip (omega arith) in
      let doc = laws.net6_iff 0x2001 0xdb8 32 ip (omega arith) in
      (λ h. ground (arith, link.0, local.0, doc.0), λ h. ground (arith, link.1, local.1, doc.1))

  refused6_plain :
      to_ipv4_mapped ip ≡ none → (is_private_or_metadata n (v6 ip) ≡ true) ↔ Blocked6 ip
  unfolding is_private_or_metadata classify_ip classify_v6
  refused6_plain e = (
    λ h. ground (
      arith, loopback6_iff.0, unspecified6_iff.0, multicast6_iff.0, metadata6→unique_local,
      net_iff.0,
    ),
    λ h. ground (arith, loopback6_iff.1, unspecified6_iff.1, multicast6_iff.1, net_iff.1),
  )

  refused6_mapped :
      (a : Ipv4)
      → to_ipv4_mapped ip ≡ some a
      → (is_private_or_metadata n (v6 ip) ≡ true) ↔ Blocked6 ip
  unfolding is_private_or_metadata classify_ip classify_v6
  refused6_mapped a e =
      let embedded = refused-InSome n laws a (mapped-IsIpv4 ip w a e) in
      (
        λ h. ground (
          arith, loopback6_iff.0, unspecified6_iff.0, multicast6_iff.0, metadata6→unique_local,
          embedded.0,
        ),
        λ h. ground (arith, loopback6_iff.1, unspecified6_iff.1, mapped_zero ip a e, embedded.1),
      )

  -- An IPv6 address with segments below 65536 is refused exactly if it is unspecified or loopback,
  -- lies in ff00::/8, fe80::/10, fc00::/7 or 2001:db8::/32, or is the IPv4-mapped form
  -- of a blocked IPv4 address.
  pub refused6-Blocked6 : (is_private_or_metadata n (v6 ip) ≡ true) ↔ Blocked6 ip
  refused6-Blocked6 = elim (Option-cases (to_ipv4_mapped ip)) [
    | inl plain ↦ refused6_plain plain
    | inr (a, e) ↦ refused6_mapped a e
  ]

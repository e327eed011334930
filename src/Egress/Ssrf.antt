-- ===== src/Egress/Ssrf.antt =====
-- src/egress/ssrf.rs: the class of an address, by which private destinations are refused.
pub mod Blocks
pub mod Mapped
mod Tests
use zeptocapsule.Common.{
  ℕ, ◌+◌, ◌-◌, ◌*◌, ◌/◌, ◌%◌, ◌^◌, ◌≤◌, ◌<◌, ◌≡◌, ◌↔◌, Bool, true, false, not, ◌&&◌, ◌||◌, Option,
  none, some, leb, ◌==◌, if◌then◌else◌,
}

-- an IPv4 address by its octets
pub record Ipv4 : Type 0 where
  pub a : ℕ
  pub b : ℕ
  pub c : ℕ
  pub d : ℕ

-- an IPv6 address by its 16-bit segments
pub record Ipv6 : Type 0 where
  pub s0 : ℕ
  pub s1 : ℕ
  pub s2 : ℕ
  pub s3 : ℕ
  pub s4 : ℕ
  pub s5 : ℕ
  pub s6 : ℕ
  pub s7 : ℕ

pub data IpAddr : Type 0 where
  v4 : Ipv4 → IpAddr
  v6 : Ipv6 → IpAddr

pub data IpClass : Type 0 where
  public loopback private unique_local link_local carrier_grade_nat metadata multicast reserved :
      IpClass

abbrev pub ipv4 : ℕ → ℕ → ℕ → ℕ → Ipv4
ipv4 a b c d = record { a = a; b = b; c = c; d = d }

abbrev pub bits4 : Ipv4 → ℕ
bits4 ip = ((ip.a * 256 + ip.b) * 256 + ip.c) * 256 + ip.d

-- the first two segments, which hold every prefix that the code tests
abbrev pub high6 : Ipv6 → ℕ
high6 ip = ip.s0 * 65536 + ip.s1

-- The ipnet crate: `net4 base p ip` is `contains` of the network that the literal "base/p" parses
-- to. `net6 s0 s1 p ip` is that of the literal whose first two segments are `s0` and `s1`, and
-- whose other segments are 0.
pub record Ipnet : Type 0 where
  pub net4 : Ipv4 → ℕ → Ipv4 → Bool
  pub net6 : ℕ → ℕ → ℕ → Ipv6 → Bool

-- What ipnet documents: an address is in a network if it has the network's first `p` bits.
pub record IsIpnet (n : Ipnet) : Type 0 where
  pub net4_iff :
      (base : Ipv4) (p : ℕ) (ip : Ipv4)
      → p ≤ 32
      → (n.net4 base p ip ≡ true) ↔ (bits4 ip / 2 ^ (32 - p) ≡ bits4 base / 2 ^ (32 - p))
  pub net6_iff :
      (s0 s1 p : ℕ) (ip : Ipv6)
      → p ≤ 32
      → (n.net6 s0 s1 p ip ≡ true) ↔ (high6 ip / 2 ^ (32 - p) ≡ (s0 * 65536 + s1) / 2 ^ (32 - p))

unfoldable pub is_public : IpClass → Bool
is_public public = true
is_public c = false

abbrev pub v4_eq : Ipv4 → Ipv4 → Bool
v4_eq x y = x.a == y.a && x.b == y.b && x.c == y.c && x.d == y.d

-- The tests of `std::net::Ipv4Addr`.
unfoldable pub is_loopback : Ipv4 → Bool
is_loopback ip = ip.a == 127

unfoldable pub is_private : Ipv4 → Bool
is_private ip =
    ip.a == 10 || (ip.a == 172 && (leb 16 ip.b && leb ip.b 31)) || (ip.a == 192 && ip.b == 168)

unfoldable pub is_link_local : Ipv4 → Bool
is_link_local ip = ip.a == 169 && ip.b == 254

unfoldable pub is_multicast : Ipv4 → Bool
is_multicast ip = leb 224 ip.a && leb ip.a 239

unfoldable pub is_broadcast : Ipv4 → Bool
is_broadcast ip = v4_eq ip (ipv4 255 255 255 255)

unfoldable pub is_unspecified : Ipv4 → Bool
is_unspecified ip = v4_eq ip (ipv4 0 0 0 0)

unfoldable pub is_documentation : Ipv4 → Bool
is_documentation ip =
    (ip.a == 192 && (ip.b == 0 && ip.c == 2))
    || (ip.a == 198 && (ip.b == 51 && ip.c == 100))
    || (ip.a == 203 && (ip.b == 0 && ip.c == 113))

abbrev pub aws_v4_metadata : Ipv4
aws_v4_metadata = ipv4 169 254 169 254

abbrev pub aws_v6_metadata : Ipv6
aws_v6_metadata = record {
  s0 = 0xfd00;
  s1 = 0xec2;
  s2 = 0;
  s3 = 0;
  s4 = 0;
  s5 = 0;
  s6 = 0;
  s7 = 0x254;
}

-- The tests of `std::net::Ipv6Addr`.
abbrev pub v6_eq : Ipv6 → Ipv6 → Bool
v6_eq x y =
    (x.s0 == y.s0 && (x.s1 == y.s1 && (x.s2 == y.s2 && x.s3 == y.s3)))
    && (x.s4 == y.s4 && (x.s5 == y.s5 && (x.s6 == y.s6 && x.s7 == y.s7)))

-- the address whose segments are 0 but for the last
abbrev pub low6 : ℕ → Ipv6
low6 n = record { s0 = 0; s1 = 0; s2 = 0; s3 = 0; s4 = 0; s5 = 0; s6 = 0; s7 = n }

unfoldable pub is_loopback6 : Ipv6 → Bool
is_loopback6 ip = v6_eq ip (low6 1)

unfoldable pub is_unspecified6 : Ipv6 → Bool
is_unspecified6 ip = v6_eq ip (low6 0)

unfoldable pub is_multicast6 : Ipv6 → Bool
is_multicast6 ip = ip.s0 / 256 == 255

unfoldable pub to_ipv4_mapped : Ipv6 → Option Ipv4
to_ipv4_mapped ip =
    if (ip.s0 == 0 && (ip.s1 == 0 && ip.s2 == 0)) && (ip.s3 == 0 && (ip.s4 == 0 && ip.s5 == 0xffff))
    then some (ipv4 (ip.s6 / 256) (ip.s6 % 256) (ip.s7 / 256) (ip.s7 % 256))
    else none

module _ (n : Ipnet) where
  unfoldable pub classify_v4 : Ipv4 → IpClass
  classify_v4 ip =
      if v4_eq ip aws_v4_metadata
      then metadata
      else if is_loopback ip
      then loopback
      else if is_private ip
      then private
      else if is_link_local ip
      then link_local
      else if is_multicast ip
      then multicast
      else if is_broadcast ip || is_unspecified ip || is_documentation ip
      then reserved
      else if n.net4 (ipv4 100 64 0 0) 10 ip
      then carrier_grade_nat
      else if leb 240 ip.a
      then reserved
      else if n.net4 (ipv4 192 0 0 0) 24 ip || n.net4 (ipv4 198 18 0 0) 15 ip
      then reserved
      else public

  -- the tests after the embedded IPv4 address
  unfoldable pub classify_v6_net : Ipv6 → IpClass
  classify_v6_net ip =
      if n.net6 0xfe80 0 10 ip
      then link_local
      else if n.net6 0xfc00 0 7 ip
      then unique_local
      else if n.net6 0x2001 0xdb8 32 ip
      then reserved
      else public

  unfoldable pub classify_v6 : Ipv6 → IpClass
  classify_v6 ip =
      if v6_eq ip aws_v6_metadata
      then metadata
      else if is_loopback6 ip
      then loopback
      else if is_unspecified6 ip
      then reserved
      else if is_multicast6 ip
      then multicast
      else elim (to_ipv4_mapped ip) [ some mapped ↦ classify_v4 mapped | none ↦ classify_v6_net ip ]

  unfoldable pub classify_ip : IpAddr → IpClass
  classify_ip (v4 ip) = classify_v4 ip
  classify_ip (v6 ip) = classify_v6 ip

  unfoldable pub is_private_or_metadata : IpAddr → Bool
  unfolding is_public
  is_private_or_metadata ip = not (is_public (classify_ip ip))

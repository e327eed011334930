-- ===== src/Egress/Ssrf/Tests.antt =====
-- Addresses of the program's own tests, with `contains` of ipnet computed from the leading bits.
use zeptocapsule.Common.{◌+◌, ◌-◌, ◌*◌, ◌/◌, ◌^◌, ◌≡◌, refl, ◌↔◌, true, arith, ◌==◌, ==_iff}
use zeptocapsule.Egress.Ssrf.{
  v4, v6, ipv4, bits4, high6, low6, Ipnet, IsIpnet, public, loopback, metadata, link_local,
  carrier_grade_nat, private, is_loopback, is_private, is_link_local, is_multicast, is_broadcast,
  is_unspecified, is_documentation, is_loopback6, is_unspecified6, is_multicast6, to_ipv4_mapped,
  classify_v4, classify_v6, classify_v6_net, classify_ip, is_private_or_metadata,
}
use zeptocapsule.Egress.Ssrf.Blocks.{InSome, blocked, refused-InSome}
use zeptocapsule.Egress.Ssrf.Mapped.{mapped, Blocked6, classify-mapped, refused6-Blocked6}

abbrev nets : Ipnet
nets = record {
  net4 = λ base p ip. (bits4 ip / 2 ^ (32 - p)) == (bits4 base / 2 ^ (32 - p));
  net6 = λ s0 s1 p ip. (high6 ip / 2 ^ (32 - p)) == ((s0 * 65536 + s1) / 2 ^ (32 - p));
}

nets-IsIpnet : IsIpnet nets
nets-IsIpnet = record {
  net4_iff = λ base p ip h. ==_iff (bits4 ip / 2 ^ (32 - p)) (bits4 base / 2 ^ (32 - p));
  net6_iff = λ s0 s1 p ip h. ==_iff (high6 ip / 2 ^ (32 - p)) ((s0 * 65536 + s1) / 2 ^ (32 - p));
}

classes4 :
    (classify_ip nets (v4 (ipv4 8 8 8 8)) ≡ public)
    × (classify_ip nets (v4 (ipv4 172 31 255 255)) ≡ private)
    × (classify_ip nets (v4 (ipv4 172 32 0 1)) ≡ public)
    × (classify_ip nets (v4 (ipv4 169 254 169 254)) ≡ metadata)
    × (classify_ip nets (v4 (ipv4 100 127 255 254)) ≡ carrier_grade_nat)
    × (classify_ip nets (v4 (ipv4 100 128 0 1)) ≡ public)
unfolding classify_ip classify_v4 is_loopback is_private is_link_local is_multicast is_broadcast
    is_unspecified is_documentation
classes4 = (refl, refl, refl, refl, refl, refl)

-- 2606:4700:4700::1111, fe80::1, ::ffff:127.0.0.1
classes6 :
    (classify_ip nets (v6 (record (low6 0x1111) { s0 = 0x2606; s1 = 0x4700; s2 = 0x4700 }))
      ≡ public)
    × (classify_ip nets (v6 (record (low6 1) { s0 = 0xfe80 })) ≡ link_local)
    × (classify_ip nets (v6 (mapped (ipv4 127 0 0 1))) ≡ loopback)
unfolding classify_ip classify_v6 classify_v6_net classify_v4 to_ipv4_mapped is_loopback
    is_loopback6 is_unspecified6 is_multicast6
classes6 = (refl, refl, refl)

refused-InSome_example :
    (is_private_or_metadata nets (v4 (ipv4 10 0 0 1)) ≡ true) ↔ InSome blocked (ipv4 10 0 0 1)
refused-InSome_example = refused-InSome nets nets-IsIpnet (ipv4 10 0 0 1) (omega arith)

classify-mapped_example :
    classify_ip nets (v6 (mapped (ipv4 10 0 0 1))) ≡ classify_ip nets (v4 (ipv4 10 0 0 1))
classify-mapped_example = classify-mapped nets (ipv4 10 0 0 1) (omega arith)

refused6-Blocked6_example :
    (is_private_or_metadata nets (v6 (mapped (ipv4 10 0 0 1))) ≡ true)
    ↔ Blocked6 (mapped (ipv4 10 0 0 1))
refused6-Blocked6_example =
    refused6-Blocked6 nets nets-IsIpnet (mapped (ipv4 10 0 0 1)) (omega arith)

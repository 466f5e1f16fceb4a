-- ===== src/Tests/Platforms.antt =====
-- A platform with macOS's numbers, in which a network is its address and the length of its prefix.
use pfctl_rs.Common.{ℕ, refl, none, some, leb, if◌then◌else◌, arith}
use pfctl_rs.Net.{Ipv4Addr, Ipv6Addr}
use pfctl_rs.Platform.{Platform, HasDistinctProtocols, AcceptsPrefixes}

abbrev ones4 : Ipv4Addr
ones4 = record { a = 255; b = 255; c = 255; d = 255 }

abbrev ones6 : Ipv6Addr
ones6 = record {
  s0 = 65535;
  s1 = 65535;
  s2 = 65535;
  s3 = 65535;
  s4 = 65535;
  s5 = 65535;
  s6 = 65535;
  s7 = 65535;
}

-- The masks are those of the whole address.
abbrev pub macos : Platform
macos = record {
  eexist = 17;
  enoent = 2;
  ipproto_ip = 0;
  ipproto_tcp = 6;
  ipproto_udp = 17;
  ipproto_icmp = 1;
  ipproto_icmpv6 = 58;
  Ipv4Network = Ipv4Addr × ℕ;
  Ipv6Network = Ipv6Addr × ℕ;
  ipv4_network_new = λ ip n. if leb n 32 then some (ip, n) else none;
  ipv4_network_ip = λ (ip, n). ip;
  ipv4_network_mask = λ n. ones4;
  ipv6_network_new = λ ip n. if leb n 128 then some (ip, n) else none;
  ipv6_network_ip = λ (ip, n). ip;
  ipv6_network_mask = λ n. ones6;
}

pub macos-HasDistinctProtocols : HasDistinctProtocols macos
macos-HasDistinctProtocols = record {
  ip-ne-tcp = λ h. omega (arith, h);
  ip-ne-udp = λ h. omega (arith, h);
  ip-ne-icmp = λ h. omega (arith, h);
  ip-ne-icmpv6 = λ h. omega (arith, h);
  tcp-ne-udp = λ h. omega (arith, h);
  tcp-ne-icmp = λ h. omega (arith, h);
  tcp-ne-icmpv6 = λ h. omega (arith, h);
  udp-ne-icmp = λ h. omega (arith, h);
  udp-ne-icmpv6 = λ h. omega (arith, h);
  icmp-ne-icmpv6 = λ h. omega (arith, h);
}

pub macos-AcceptsPrefixes : AcceptsPrefixes macos
macos-AcceptsPrefixes = record {
  ipv4_host = λ ip. ((ip, 32), refl, refl);
  ipv6_host = λ ip. ((ip, 128), refl, refl);
  ipv6_any = λ ip. ((ip, 0), refl, refl);
}

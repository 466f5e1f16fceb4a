-- ===== src/Platform.antt =====
-- What the crate takes from libc and from the `ipnetwork` crate, as parameters.
use pfctl_rs.Common.{ℕ, ◌%◌, ◌≡◌, ◌≢◌, Option, some}
use pfctl_rs.Net.{Ipv4Addr, Ipv6Addr}

pub record Platform : Type 1 where
  pub eexist : ℕ
  pub enoent : ℕ
  pub ipproto_ip : ℕ
  pub ipproto_tcp : ℕ
  pub ipproto_udp : ℕ
  pub ipproto_icmp : ℕ
  pub ipproto_icmpv6 : ℕ
  pub Ipv4Network : Type 0
  pub Ipv6Network : Type 0
  -- `Ipv4Network::new(ip, prefix)`; an error is `none`.
  pub ipv4_network_new : Ipv4Addr → ℕ → Option Ipv4Network
  pub ipv4_network_ip : Ipv4Network → Ipv4Addr
  pub ipv4_network_mask : Ipv4Network → Ipv4Addr
  pub ipv6_network_new : Ipv6Addr → ℕ → Option Ipv6Network
  pub ipv6_network_ip : Ipv6Network → Ipv6Addr
  pub ipv6_network_mask : Ipv6Network → Ipv6Addr

-- The protocol numbers differ as bytes: the discriminants of `enum Proto` must, or the crate does
-- not compile.
pub record HasDistinctProtocols (P : Platform) : Type 0 where
  pub ip-ne-tcp : P.ipproto_ip % 256 ≢ P.ipproto_tcp % 256
  pub ip-ne-udp : P.ipproto_ip % 256 ≢ P.ipproto_udp % 256
  pub ip-ne-icmp : P.ipproto_ip % 256 ≢ P.ipproto_icmp % 256
  pub ip-ne-icmpv6 : P.ipproto_ip % 256 ≢ P.ipproto_icmpv6 % 256
  pub tcp-ne-udp : P.ipproto_tcp % 256 ≢ P.ipproto_udp % 256
  pub tcp-ne-icmp : P.ipproto_tcp % 256 ≢ P.ipproto_icmp % 256
  pub tcp-ne-icmpv6 : P.ipproto_tcp % 256 ≢ P.ipproto_icmpv6 % 256
  pub udp-ne-icmp : P.ipproto_udp % 256 ≢ P.ipproto_icmp % 256
  pub udp-ne-icmpv6 : P.ipproto_udp % 256 ≢ P.ipproto_icmpv6 % 256
  pub icmp-ne-icmpv6 : P.ipproto_icmp % 256 ≢ P.ipproto_icmpv6 % 256

-- A prefix length of at most the address width is accepted, and the address is kept.
pub record AcceptsPrefixes (P : Platform) : Type 0 where
  pub ipv4_host :
      (ip : Ipv4Addr)
      → (n : P.Ipv4Network) × (P.ipv4_network_new ip 32 ≡ some n) × (P.ipv4_network_ip n ≡ ip)
  pub ipv6_host :
      (ip : Ipv6Addr)
      → (n : P.Ipv6Network) × (P.ipv6_network_new ip 128 ≡ some n) × (P.ipv6_network_ip n ≡ ip)
  pub ipv6_any :
      (ip : Ipv6Addr)
      → (n : P.Ipv6Network) × (P.ipv6_network_new ip 0 ≡ some n) × (P.ipv6_network_ip n ≡ ip)

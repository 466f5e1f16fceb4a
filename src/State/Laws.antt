-- ===== src/State/Laws.antt =====
-- An address that was written is parsed again.
use pfctl_rs.Common.{ℕ, ◌^◌, ◌<◌, ◌≡◌, ◌≢◌, ap, ◌∙◌, length, arith}
use pfctl_rs.Error.{Error, ok, err}
use pfctl_rs.ByteOrder.{
  to_be16, to_be32, load32, store16, store32, byte_at-overlay, to_be16-to_be16,
}
use pfctl_rs.Net.{
  Ipv4Addr, Ipv6Addr, IsIpv4, IsIpv6, IpAddr, new_socket_addr, ipv4_from_u32, ipv4_to_u32,
  ipv6_from_octets, segments,
}
use pfctl_rs.Ffi.{PfAddr, PfsyncStateHost, pf_inet, pf_inet6}
use pfctl_rs.Rule.Ip.{addr_copy_to, ipv4_bytes, ipv6_bytes}
use pfctl_rs.State.{parse_ip, parse_address}

load32-ipv4 :
    (ip : Ipv4Addr) (dst : PfAddr)
    → IsIpv4 ip
    → length dst ≡ 16
    → ipv4_from_u32 (to_be32 (load32 (addr_copy_to (IpAddr.v4 ip) dst))) ≡ ip
unfolding addr_copy_to load32 to_be32 ipv4_from_u32 store32 ipv4_to_u32
load32-ipv4 ip dst w l = ground (
  arith,
  byte_at-overlay 0 (ipv4_bytes ip) dst,
  byte_at-overlay 1 (ipv4_bytes ip) dst,
  byte_at-overlay 2 (ipv4_bytes ip) dst,
  byte_at-overlay 3 (ipv4_bytes ip) dst,
)

-- One segment of an IPv6 address, read back from its two bytes.
segments-ipv6 :
    (ip : Ipv6Addr) (dst : PfAddr)
    → IsIpv6 ip
    → length dst ≡ 16
    → ipv6_from_octets (addr_copy_to (IpAddr.v6 ip) dst) ≡ ip
unfolding addr_copy_to ipv6_from_octets store16 to_be16 segments
segments-ipv6 ip dst w l = ground (
  arith,
  byte_at-overlay 0 (ipv6_bytes ip) dst,
  byte_at-overlay 1 (ipv6_bytes ip) dst,
  byte_at-overlay 2 (ipv6_bytes ip) dst,
  byte_at-overlay 3 (ipv6_bytes ip) dst,
  byte_at-overlay 4 (ipv6_bytes ip) dst,
  byte_at-overlay 5 (ipv6_bytes ip) dst,
  byte_at-overlay 6 (ipv6_bytes ip) dst,
  byte_at-overlay 7 (ipv6_bytes ip) dst,
  byte_at-overlay 8 (ipv6_bytes ip) dst,
  byte_at-overlay 9 (ipv6_bytes ip) dst,
  byte_at-overlay 10 (ipv6_bytes ip) dst,
  byte_at-overlay 11 (ipv6_bytes ip) dst,
  byte_at-overlay 12 (ipv6_bytes ip) dst,
  byte_at-overlay 13 (ipv6_bytes ip) dst,
  byte_at-overlay 14 (ipv6_bytes ip) dst,
  byte_at-overlay 15 (ipv6_bytes ip) dst,
)

-- How an address is written into the host of a state: its bytes, and the port in network order.
abbrev pub host : IpAddr → ℕ → PfAddr → PfsyncStateHost
host ip port dst = record { addr = addr_copy_to ip dst; port = to_be16 port }

-- The bytes are those of an address.
abbrev pub IsIp : IpAddr → Type 0
IsIp (IpAddr.v4 ip) = IsIpv4 ip
IsIp (IpAddr.v6 ip) = IsIpv6 ip

abbrev pub family_of : IpAddr → ℕ
family_of (IpAddr.v4 ip) = pf_inet
family_of (IpAddr.v6 ip) = pf_inet6

-- The address and port of a state are those that were written there, for the family of the
-- address; any family but IPv4 and IPv6 is refused, with its number in the error.
pub parse_address-host :
    (ip : IpAddr) (port : ℕ) (dst : PfAddr)
    → IsIp ip
    → port < 2 ^ 16
    → length dst ≡ 16
    → (parse_address (family_of ip) (host ip port dst) ≡ ok (new_socket_addr ip port))
      × ((family : ℕ)
          → family ≢ pf_inet
          → family ≢ pf_inet6
          → parse_address family (host ip port dst) ≡ err (Error.invalid_address_family family))
unfolding parse_address parse_ip
parse_address-host (IpAddr.v4 ip) port dst w p l = (
  ap (λ z. ok (new_socket_addr (IpAddr.v4 z) (to_be16 (to_be16 port)))) (load32-ipv4 ip dst w l)
      ∙ ap (λ z. ok (new_socket_addr (IpAddr.v4 ip) z)) (to_be16-to_be16 port p),
  λ family a b. ground arith,
)
parse_address-host (IpAddr.v6 ip) port dst w p l = (
  ap (λ z. ok (new_socket_addr (IpAddr.v6 z) (to_be16 (to_be16 port)))) (segments-ipv6 ip dst w l)
      ∙ ap (λ z. ok (new_socket_addr (IpAddr.v6 ip) z)) (to_be16-to_be16 port p),
  λ family a b. ground arith,
)

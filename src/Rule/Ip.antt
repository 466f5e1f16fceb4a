-- ===== src/Rule/Ip.antt =====
-- `Ip` (src/rule/ip.rs), and how networks and addresses are written (src/rule/mod.rs).
pub mod Laws
use pfctl_rs.Common.{ℕ, List, [], ◌∷◌, ◌++◌, overlay}
use pfctl_rs.Error.{Error, Result, ok, ◌>>=◌, unwrap}
use pfctl_rs.ByteOrder.{to_be16, to_be32, store16, store32}
use pfctl_rs.Net.{Ipv4Addr, Ipv6Addr, IpAddr, ipv4_to_u32, segments}
use pfctl_rs.Platform.{Platform}
use pfctl_rs.Ffi.{PfAddr, PfAddrWrap, pf_addr_addrmask}
use pfctl_rs.Rule.AddrFamily.{AddrFamily}

-- `ipnetwork::IpNetwork`, with its `ip()` and `mask()`.
pub data IpNetwork (P : Platform) : Type 0 where
  v4 : P.Ipv4Network → IpNetwork P
  v6 : P.Ipv6Network → IpNetwork P

abbrev pub ip_of : {P : Platform} → IpNetwork P → IpAddr
ip_of {P} (v4 n) = IpAddr.v4 (P.ipv4_network_ip n)
ip_of {P} (v6 n) = IpAddr.v6 (P.ipv6_network_ip n)

abbrev pub mask_of : {P : Platform} → IpNetwork P → IpAddr
mask_of {P} (v4 n) = IpAddr.v4 (P.ipv4_network_mask n)
mask_of {P} (v6 n) = IpAddr.v6 (P.ipv6_network_mask n)

pub data Ip (P : Platform) : Type 0 where
  any : Ip P
  net : IpNetwork P → Ip P

abbrev pub get_af : {P : Platform} → Ip P → AddrFamily
get_af any = AddrFamily.any
get_af (net (v4 n)) = AddrFamily.ipv4
get_af (net (v6 n)) = AddrFamily.ipv6

-- `impl CopyTo<in_addr> for Ipv4Addr`: the four bytes of the member `_v4addr`.
abbrev pub ipv4_bytes : Ipv4Addr → List ℕ
ipv4_bytes ip = store32 (to_be32 (ipv4_to_u32 ip))

-- `impl CopyTo<in6_addr> for Ipv6Addr`: the eight segments of the member `_v6addr`.
abbrev segments_bytes : List ℕ → List ℕ
segments_bytes [] = []
segments_bytes (s ∷ ss) = store16 (to_be16 s) ++ segments_bytes ss

abbrev pub ipv6_bytes : Ipv6Addr → List ℕ
ipv6_bytes ip = segments_bytes (segments ip)

-- `impl CopyTo<pf_addr> for IpAddr`
unfoldable pub addr_copy_to : IpAddr → PfAddr → PfAddr
unfolding segments store16 store32 ipv4_to_u32
addr_copy_to (IpAddr.v4 ip) dst = overlay (ipv4_bytes ip) dst
addr_copy_to (IpAddr.v6 ip) dst = overlay (ipv6_bytes ip) dst

-- `impl CopyTo<pf_addr_wrap> for IpNetwork`
unfoldable pub network_copy_to : {P : Platform} → IpNetwork P → PfAddrWrap → PfAddrWrap
unfolding addr_copy_to
network_copy_to n dst = record dst {
  type_ = pf_addr_addrmask;
  addr = addr_copy_to (ip_of n) dst.addr;
  mask = addr_copy_to (mask_of n) dst.mask;
}

abbrev pub unspecified6 : Ipv6Addr
unspecified6 = record { s0 = 0; s1 = 0; s2 = 0; s3 = 0; s4 = 0; s5 = 0; s6 = 0; s7 = 0 }

-- `any_ffi_repr`, which unwraps.
unfoldable pub any_ffi_repr : (P : Platform) → Result Error (IpNetwork P)
any_ffi_repr P = do n ← unwrap (P.ipv6_network_new unspecified6 0); ok (v6 n)

-- `impl CopyTo<pf_addr_wrap> for Ip`
unfoldable pub copy_to : {P : Platform} → Ip P → PfAddrWrap → Result Error PfAddrWrap
unfolding any_ffi_repr network_copy_to
copy_to {P} any dst = do n ← any_ffi_repr P; ok (network_copy_to n dst)
copy_to (net n) dst = ok (network_copy_to n dst)

-- `From<Ipv4Addr>`, `From<Ipv6Addr>` and `From<IpAddr>`, which unwrap.
unfoldable pub from_ipv4 : (P : Platform) → Ipv4Addr → Result Error (Ip P)
from_ipv4 P ip = do n ← unwrap (P.ipv4_network_new ip 32); ok (net (v4 n))

unfoldable pub from_ipv6 : (P : Platform) → Ipv6Addr → Result Error (Ip P)
from_ipv6 P ip = do n ← unwrap (P.ipv6_network_new ip 128); ok (net (v6 n))

unfoldable pub from_addr : (P : Platform) → IpAddr → Result Error (Ip P)
unfolding from_ipv4 from_ipv6
from_addr P (IpAddr.v4 addr) = from_ipv4 P addr
from_addr P (IpAddr.v6 addr) = from_ipv6 P addr

-- ===== src/Rule/Ip/Laws.antt =====
-- When an address is written, and what its bytes are.
use mathlib.Core.Path.{subst}
use pfctl_rs.Common.{ℕ, List, ◌≡◌, refl, ap, ◌∙◌, Option, none, some, overlay, arith}
use pfctl_rs.Error.{Error, Result, ok, unwrap, ◌>>=◌, >>=-eq-ok}
use pfctl_rs.Net.{IpAddr}
use pfctl_rs.Platform.{Platform, AcceptsPrefixes}
use pfctl_rs.Ffi.{PfAddrWrap, pf_addr_addrmask}
use pfctl_rs.Rule.AddrFamily.{AddrFamily}
use pfctl_rs.Rule.Ip.{
  Ip, any, net, IpNetwork, v4, v6, get_af, from_addr, from_ipv4, from_ipv6, unspecified6,
  any_ffi_repr, copy_to, network_copy_to, ip_of, mask_of, ipv4_bytes, ipv6_bytes, addr_copy_to,
}

-- The bytes of an address in network order.
abbrev pub address_bytes : IpAddr → List ℕ
address_bytes (IpAddr.v4 a) = ipv4_bytes a
address_bytes (IpAddr.v6 a) = ipv6_bytes a

-- A written network: the type of an address and a mask, the bytes of the address at the start of
-- one field, and those of the mask at the start of the other.
abbrev pub NetworkRead : {P : Platform} → IpNetwork P → PfAddrWrap → PfAddrWrap → Type 0
NetworkRead n dst out =
    (out.type_ ≡ pf_addr_addrmask)
    × (out.addr ≡ overlay (address_bytes (ip_of n)) dst.addr)
    × (out.mask ≡ overlay (address_bytes (mask_of n)) dst.mask)

-- A written address: any address is the IPv6 network of prefix length 0.
abbrev pub AddressRead : {P : Platform} → Ip P → PfAddrWrap → PfAddrWrap → Type 0
AddressRead {P} any dst out =
    (n : P.Ipv6Network) × (P.ipv6_network_new unspecified6 0 ≡ some n)
    × (let any6 : IpNetwork P = v6 n in NetworkRead any6 dst out)
AddressRead (net n) dst out = NetworkRead n dst out

network_copy_to-NetworkRead :
    {P : Platform} (n : IpNetwork P) (dst : PfAddrWrap) → NetworkRead n dst (network_copy_to n dst)
unfolding network_copy_to addr_copy_to
network_copy_to-NetworkRead (v4 n) dst = (refl, refl, refl)
network_copy_to-NetworkRead (v6 n) dst = (refl, refl, refl)

unwrap-eq-ok : {A : Type 0} {o : Option A} {a : A} → unwrap {E = Error} o ≡ ok a → o ≡ some a
unwrap-eq-ok {o = none} h = absurd (ground arith)
unwrap-eq-ok {o = some b} h = ground arith

pub copy_to-AddressRead :
    {P : Platform} (i : Ip P) (dst : PfAddrWrap) {out : PfAddrWrap}
    → copy_to i dst ≡ ok out
    → AddressRead i dst out
unfolding copy_to any_ffi_repr
copy_to-AddressRead {P} any dst {out} h =
    let wrap : P.Ipv6Network → Result Error (IpNetwork P) = λ n. ok (v6 n) in
    let (m, made, k) =
      >>=-eq-ok (unwrap (P.ipv6_network_new unspecified6 0) >>= wrap)
        (λ n. ok (network_copy_to n dst)) h in
    let (n, there, same) = >>=-eq-ok (unwrap (P.ipv6_network_new unspecified6 0)) wrap made in
    let any6 : IpNetwork P = v6 n in
    let network : any6 ≡ m = ground arith in
    let written : network_copy_to m dst ≡ out = ground arith in
    (
      n,
      unwrap-eq-ok there,
      subst (λ z. NetworkRead any6 dst z) (ap (λ z. network_copy_to z dst) network ∙ written)
          (network_copy_to-NetworkRead any6 dst),
    )
copy_to-AddressRead (net n) dst {out} h =
    let written : network_copy_to n dst ≡ out = ground arith in
    subst (λ z. NetworkRead n dst z) written (network_copy_to-NetworkRead n dst)

-- The family that an address has.
abbrev pub family : IpAddr → AddrFamily
family (IpAddr.v4 a) = AddrFamily.ipv4
family (IpAddr.v6 a) = AddrFamily.ipv6

pub copy_to-ok :
    (P : Platform)
    → AcceptsPrefixes P
    → (i : Ip P) (dst : PfAddrWrap)
    → (n : IpNetwork P) × (copy_to i dst ≡ ok (network_copy_to n dst))
unfolding copy_to any_ffi_repr
copy_to-ok P A any dst = let (n, e, q) = A.ipv6_any unspecified6 in (v6 n, (rw e refl))
copy_to-ok P A (net n) dst = (n, refl)

-- `Ip::from` does not panic, since the prefix of a single address is accepted, and the network that
-- it makes has the family of the address and that address; and an `Ip` is written into a rule
-- without a panic, with the type of an address and a mask.
pub from_addr-copy_to :
    (P : Platform)
    → AcceptsPrefixes P
    → (addr : IpAddr)
    → (n : IpNetwork P) × (from_addr P addr ≡ ok (net n))
      × (get_af (net n) ≡ family addr)
      × (ip_of n ≡ addr)
      × ((i : Ip P) (dst : PfAddrWrap)
          → (out : PfAddrWrap) × (copy_to i dst ≡ ok out) × (out.type_ ≡ pf_addr_addrmask))
unfolding from_addr from_ipv4 from_ipv6 network_copy_to
from_addr-copy_to P A (IpAddr.v4 a) =
    let (n, e, q) = A.ipv4_host a in
    (
      v4 n,
      (rw e refl),
      refl,
      ap IpAddr.v4 q,
      λ i dst. (let (m, c) = copy_to-ok P A i dst in (network_copy_to m dst, c, refl)),
    )
from_addr-copy_to P A (IpAddr.v6 a) =
    let (n, e, q) = A.ipv6_host a in
    (
      v6 n,
      (rw e refl),
      refl,
      ap IpAddr.v6 q,
      λ i dst. (let (m, c) = copy_to-ok P A i dst in (network_copy_to m dst, c, refl)),
    )

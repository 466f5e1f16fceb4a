-- ===== src/Tests/Values.antt =====
-- The theorems on strings, addresses, ports and rules at concrete values.
use pfctl_rs.Common.{
  Option, ℕ, ◌<◌, ◌≤◌, ◌≡◌, ◌≢◌, ◌↔◌, ◌⊎◌, refl, true, false, some, List, [], ◌∷◌, All, contains,
  length, arith,
}
use pfctl_rs.Error.{Error, ok, err, panic}
use pfctl_rs.Cstr.{Str, zeros, try_copy_chars, until_nul, compare_cstr_safe}
use pfctl_rs.Cstr.Laws.{Fits, try_copy_chars-Fits, compare_cstr_safe_iff}
use pfctl_rs.Net.{IpAddr, Ipv4Addr, new_socket_addr}
use pfctl_rs.Ffi.{PfAddrWrap, PfRule, zero_rule, pf_addr_addrmask, pf_inet, pf_inet6, to, pool_elem}
use pfctl_rs.Rule.AddrFamily
use pfctl_rs.Rule.AddrFamily.{AddrFamily}
use pfctl_rs.Rule.AddrFamily.Laws.{Joins}
use pfctl_rs.Rule.Codes.{Reads, try_from-Reads}
use pfctl_rs.Rule.Direction
use pfctl_rs.Rule.Direction.{Direction}
use pfctl_rs.Rule.Proto
use pfctl_rs.Rule.Proto.{Proto}
use pfctl_rs.Rule.Icmp
use pfctl_rs.Rule.Port
use pfctl_rs.Rule.Port.{Port}
use pfctl_rs.Rule.Port.Laws.{Written, decode_range, decode_pool, try_copy_to-Written}
use pfctl_rs.Rule.Ip
use pfctl_rs.Rule.Ip.{Ip, IpNetwork}
use pfctl_rs.Rule.Ip.Laws.{from_addr-copy_to}
use pfctl_rs.Rule.Interface
use pfctl_rs.Rule.Endpoint
use pfctl_rs.Rule.Endpoint.{Endpoint, NatEndpoint}
use pfctl_rs.Rule.PoolAddr
use pfctl_rs.Rule.PoolAddr.{PoolAddr, PoolAddrList, init_pool, new_list}
use pfctl_rs.Rule.PoolAddr.Laws.{IsUnlinked, new_list-IsUnlinked}
use pfctl_rs.Rule.Action
use pfctl_rs.Rule.Owner
use pfctl_rs.Rule.Filter
use pfctl_rs.Rule.Filter.{FilterRule}
use pfctl_rs.Rule.Nat
use pfctl_rs.Rule.Nat.{NatRule}
use pfctl_rs.Rule.Redirect
use pfctl_rs.Rule.Redirect.{RedirectRule}
use pfctl_rs.Rule.Families.{filter-nat-redirect_get_af}
use pfctl_rs.State.{parse_address}
use pfctl_rs.State.Laws.{host, parse_address-host}
use pfctl_rs.Tests.Platforms.{macos, macos-HasDistinctProtocols, macos-AcceptsPrefixes}
use pfctl_rs.Tests.Transactions.{https}

abbrev en0 : Str
en0 = 101 ∷ 110 ∷ 48 ∷ []

-- A buffer of eight bytes that holds the name.
abbrev en0_buffer : List ℕ
en0_buffer = 101 ∷ 110 ∷ 48 ∷ 0 ∷ 0 ∷ 0 ∷ 0 ∷ 0 ∷ []

en0_copied : try_copy_chars en0 (zeros 8) ≡ ok en0_buffer
unfolding try_copy_chars zeros
en0_copied = refl

try_copy_chars-Fits_example :
    ((Fits (length (zeros 8)) en0)
      × ((out : List ℕ) × (try_copy_chars en0 (zeros 8) ≡ ok out)
          × (until_nul out ≡ some en0)
          × (length out ≡ length (zeros 8))))
    ⊎ ((length (zeros 8) ≤ 3) × (try_copy_chars en0 (zeros 8) ≡ err "Too long"))
    ⊎ ((3 < length (zeros 8))
        × (contains en0 0 ≡ true)
        × (try_copy_chars en0 (zeros 8) ≡ err "Contains null byte"))
try_copy_chars-Fits_example = try_copy_chars-Fits en0 (zeros 8)

compare_cstr_safe_iff_example :
    ((compare_cstr_safe en0 en0_buffer ≡ ok true) ↔ (en0 ≡ en0))
    × ((compare_cstr_safe en0 en0 ≡ panic) ↔ (contains en0 0 ≡ false))
compare_cstr_safe_iff_example = compare_cstr_safe_iff en0 en0 (zeros 8) en0 en0_copied

try_from-Reads_example :
    Reads AddrFamily.try_from AddrFamily.to_u8 Error.invalid_address_family 2
    × Reads Direction.try_from Direction.to_u8 Error.invalid_direction 2
    × Reads (Proto.try_from macos) (Proto.to_u8 macos) Error.invalid_transport_protocol 2
try_from-Reads_example = try_from-Reads macos macos-HasDistinctProtocols 2

try_copy_to-Written_example :
    Written decode_range (Port.range 1 1024 Port.PortRangeModifier.inclusive) (
      Port.try_copy_to_range
        (Port.range 1 1024 Port.PortRangeModifier.inclusive)
        zero_rule.src.range)
    × Written decode_pool
        (Port.range 1 1024 Port.PortRangeModifier.inclusive)
        (Port.try_copy_to_pool (Port.range 1 1024 Port.PortRangeModifier.inclusive) zero_rule.rpool)
try_copy_to-Written_example =
    try_copy_to-Written (Port.range 1 1024 Port.PortRangeModifier.inclusive) zero_rule.src.range
      zero_rule.rpool (omega arith, omega arith)

abbrev localhost : Ipv4Addr
localhost = record { a = 127; b = 0; c = 0; d = 1 }

parse_address-host_example :
    (parse_address pf_inet (host (IpAddr.v4 localhost) 80 (zeros 16))
      ≡ ok (new_socket_addr (IpAddr.v4 localhost) 80))
    × ((family : ℕ)
        → family ≢ pf_inet
        → family ≢ pf_inet6
        → parse_address family (host (IpAddr.v4 localhost) 80 (zeros 16))
          ≡ err (Error.invalid_address_family family))
unfolding zeros
parse_address-host_example =
    parse_address-host (IpAddr.v4 localhost) 80 (zeros 16)
      (record {
        a_byte = omega arith;
        b_byte = omega arith;
        c_byte = omega arith;
        d_byte = omega arith;
      })
      (omega arith) refl

from_addr-copy_to_example :
    (n : IpNetwork macos) × (Ip.from_addr macos (IpAddr.v4 localhost) ≡ ok (Ip.net n))
    × (Ip.get_af (Ip.net n) ≡ AddrFamily.ipv4)
    × (Ip.ip_of n ≡ IpAddr.v4 localhost)
    × ((i : Ip macos) (dst : PfAddrWrap)
        → (out : PfAddrWrap) × (Ip.copy_to i dst ≡ ok out) × (out.type_ ≡ pf_addr_addrmask))
from_addr-copy_to_example = from_addr-copy_to macos macos-AcceptsPrefixes (IpAddr.v4 localhost)

copy_to-Selects_example :
    let r = Icmp.copy_to (Icmp.unreach Icmp.port_unreach) zero_rule in
    (n : ℕ) × (c : Option ℕ) × Icmp.Selects r.type_ (some n)
    × Icmp.Selects r.code c
    × (Icmp.named n c ≡ some (Icmp.unreach Icmp.port_unreach))
copy_to-Selects_example = Icmp.copy_to-Selects (Icmp.unreach Icmp.port_unreach) zero_rule

abbrev en0_addr : PoolAddr macos
en0_addr = PoolAddr.from_interface macos (Interface.name en0)

-- Two addresses, of which a linked list would point from the first to the second.
abbrev two_addrs : List (PoolAddr macos)
two_addrs = en0_addr ∷ en0_addr ∷ []

abbrev retained : PoolAddrList
retained = elim (new_list two_addrs) [
  | ok l ↦ l
  | err e ↦ record { list = zero_rule.rpool.list; pool = [] }
  | panic ↦ record { list = zero_rule.rpool.list; pool = [] }
]

retained-eq : new_list two_addrs ≡ ok retained
unfolding new_list try_copy_chars zeros
retained-eq = refl

new_list-IsUnlinked_example :
    (init_pool two_addrs ≡ ok retained.pool)
    × All IsUnlinked retained.pool
    × ((i : ℕ)
        → (retained.list.tqh_first ≢ to (pool_elem i))
          × (retained.list.tqh_last ≢ to (pool_elem i)))
new_list-IsUnlinked_example = new_list-IsUnlinked two_addrs retained retained-eq

abbrev v4_end : Endpoint macos
v4_end = record { ip = Ip.net (Ip.v4 (localhost, 32)); port = Port.any }

abbrev any_end : Endpoint macos
any_end = record { ip = Ip.any; port = Port.any }

abbrev translate : NatRule macos
translate = record {
  action = Action.nat (Endpoint.nat_from_endpoint v4_end);
  interface = Interface.any;
  af = AddrFamily.any;
  from = v4_end;
  to = any_end;
}

-- Redirects IPv6 to an IPv4 address, which no family allows.
abbrev mixed : RedirectRule macos
mixed = record {
  action = Action.redirect;
  direction = Direction.any;
  quick = false;
  log = record { logs = [] };
  interface = Interface.any;
  proto = Proto.any;
  af = AddrFamily.ipv6;
  from = any_end;
  to = any_end;
  label = [];
  user = Owner.default_uid;
  group = Owner.default_gid;
  redirect_to = v4_end;
}

filter-nat-redirect_get_af_example :
    Joins (AddrFamily.ipv4 ∷ AddrFamily.any ∷ AddrFamily.any ∷ []) (Filter.get_af https)
    × Joins
        (AddrFamily.any ∷ AddrFamily.ipv4 ∷ AddrFamily.ipv4 ∷ AddrFamily.any ∷ [])
        (Nat.get_af translate)
    × Joins
        (AddrFamily.ipv6 ∷ AddrFamily.ipv4 ∷ AddrFamily.any ∷ AddrFamily.any ∷ [])
        (Redirect.get_af mixed)
filter-nat-redirect_get_af_example = filter-nat-redirect_get_af https translate mixed

abbrev https_written : PfRule
https_written = elim (Filter.try_copy_to https zero_rule) [
  | ok out ↦ out
  | err e ↦ zero_rule
  | panic ↦ zero_rule
]

abbrev translate_written : PfRule
translate_written = elim (Nat.try_copy_to translate zero_rule) [
  | ok out ↦ out
  | err e ↦ zero_rule
  | panic ↦ zero_rule
]

-- A redirection of IPv4 to this host.
abbrev to_host : RedirectRule macos
to_host = record mixed { af = AddrFamily.ipv4 }

abbrev to_host_written : PfRule
to_host_written = elim (Redirect.try_copy_to to_host zero_rule) [
  | ok out ↦ out
  | err e ↦ zero_rule
  | panic ↦ zero_rule
]

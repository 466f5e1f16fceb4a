-- ===== src/Rule/Endpoint.antt =====
-- `Endpoint` (src/rule/endpoint.rs) and `NatEndpoint` (src/rule/mod.rs).
use pfctl_rs.Error.{Error, Result, ok, ◌>>=◌}
use pfctl_rs.Platform.{Platform}
use pfctl_rs.Net.{IpAddr, SocketAddr}
use pfctl_rs.Ffi.{PfRuleAddr}
use pfctl_rs.Rule.AddrFamily.{AddrFamily}
use pfctl_rs.Rule.Ip
use pfctl_rs.Rule.Ip.{Ip}
use pfctl_rs.Rule.Port
use pfctl_rs.Rule.Port.{Port}

pub record Endpoint (P : Platform) : Type 0 where
  pub ip : Ip P
  pub port : Port

abbrev pub get_af : {P : Platform} → Endpoint P → AddrFamily
get_af e = Ip.get_af e.ip

-- `From<Ip>`, `From<Port>`
abbrev pub from_ip : {P : Platform} → Ip P → Endpoint P
from_ip ip = record { ip = ip; port = Port.any }

abbrev pub from_port : (P : Platform) → Port → Endpoint P
from_port P port = record { ip = Ip.any; port = port }

-- `From<IpAddr>`, and so `From<Ipv4Addr>` and `From<Ipv6Addr>`
unfoldable pub from_addr : (P : Platform) → IpAddr → Result Error (Endpoint P)
unfolding Ip.from_addr
from_addr P ip = do i ← Ip.from_addr P ip; ok (from_ip i)

-- `From<SocketAddr>`, and so `From<SocketAddrV4>` and `From<SocketAddrV6>`
unfoldable pub from_socket_addr : (P : Platform) → SocketAddr → Result Error (Endpoint P)
unfolding Ip.from_ipv4 Ip.from_ipv6
from_socket_addr P (SocketAddr.v4 a) = do
  i ← Ip.from_ipv4 P a.ip
  ok (record { ip = i; port = Port.from_u16 a.port })
from_socket_addr P (SocketAddr.v6 a) = do
  i ← Ip.from_ipv6 P a.ip
  ok (record { ip = i; port = Port.from_u16 a.port })

-- `impl TryCopyTo<pf_rule_addr> for Endpoint`
unfoldable pub try_copy_to : {P : Platform} → Endpoint P → PfRuleAddr → Result Error PfRuleAddr
unfolding Ip.copy_to Port.try_copy_to_range
try_copy_to e dst = do
  addr ← Ip.copy_to e.ip dst.addr
  range ← Port.try_copy_to_range e.port dst.range
  ok (record dst { addr = addr; range = range })

pub record NatEndpoint (P : Platform) : Type 0 where
  pub endpoint : Endpoint P

-- `From<Ip> for NatEndpoint`: the default range of NAT ports.
abbrev pub nat_from_ip : {P : Platform} → Ip P → NatEndpoint P
nat_from_ip ip = record {
  endpoint = record { ip = ip; port = Port.range 32768 49151 Port.PortRangeModifier.inclusive };
}

abbrev pub nat_default : (P : Platform) → NatEndpoint P
nat_default P = nat_from_ip Ip.any

abbrev pub nat_from_endpoint : {P : Platform} → Endpoint P → NatEndpoint P
nat_from_endpoint e = record { endpoint = e }

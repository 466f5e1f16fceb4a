-- ===== src/State.antt =====
-- `State` and `parse_address` (src/state.rs).
pub mod Laws
use pfctl_rs.Common.{ℕ, ◌==◌, if◌then◌else◌}
use pfctl_rs.Error.{Error, Result, ok, err, ◌>>=◌}
use pfctl_rs.ByteOrder.{to_be16, to_be32, load32}
use pfctl_rs.Net.{IpAddr, SocketAddr, new_socket_addr, ipv4_from_u32, ipv6_from_octets}
use pfctl_rs.Platform.{Platform}
use pfctl_rs.Ffi.{PfsyncState, PfsyncStateHost, pf_inet, pf_inet6}
use pfctl_rs.Rule.Direction
use pfctl_rs.Rule.Direction.{Direction}
use pfctl_rs.Rule.Proto
use pfctl_rs.Rule.Proto.{Proto}

pub record State : Type 0 where
  pub sync_state : PfsyncState

-- The address that the match in `parse_address` reads: `u32::from_be` swaps as `to_be` does.
parse_ip : ℕ → PfsyncStateHost → Result Error IpAddr
parse_ip family host =
    if family == pf_inet
    then ok (IpAddr.v4 (ipv4_from_u32 (to_be32 (load32 host.addr))))
    else if family == pf_inet6
    then ok (IpAddr.v6 (ipv6_from_octets host.addr))
    else err (Error.invalid_address_family family)

unfoldable pub parse_address : ℕ → PfsyncStateHost → Result Error SocketAddr
unfolding parse_ip
parse_address family host = do
  ip ← parse_ip family host
  ok (new_socket_addr ip (to_be16 host.port))

abbrev pub direction : State → Result Error Direction
direction s = Direction.try_from s.sync_state.direction

abbrev pub proto : Platform → State → Result Error Proto
proto P s = Proto.try_from P s.sync_state.proto

abbrev pub local_address : State → Result Error SocketAddr
local_address s = parse_address s.sync_state.af_lan s.sync_state.lan

abbrev pub remote_address : State → Result Error SocketAddr
remote_address s = parse_address s.sync_state.af_lan s.sync_state.ext_lan

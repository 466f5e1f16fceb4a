-- ===== src/Rule/Route.antt =====
-- `Route` (src/rule/route.rs).
use pfctl_rs.Common.{ℕ, Option, none, some}
use pfctl_rs.Platform.{Platform}
use pfctl_rs.Ffi.{pf_nopfroute, pf_routeto, pf_replyto, pf_dupto}
use pfctl_rs.Rule.PoolAddr.{PoolAddr}

pub data Route (P : Platform) : Type 0 where
  no_route : Route P
  route_to reply_to dup_to : PoolAddr P → Route P

abbrev pub get_pool_addr : {P : Platform} → Route P → Option (PoolAddr P)
get_pool_addr no_route = none
get_pool_addr (route_to a) = some a
get_pool_addr (reply_to a) = some a
get_pool_addr (dup_to a) = some a

-- `u8::from(&Route)`
abbrev pub to_u8 : {P : Platform} → Route P → ℕ
to_u8 no_route = pf_nopfroute
to_u8 (route_to a) = pf_routeto
to_u8 (reply_to a) = pf_replyto
to_u8 (dup_to a) = pf_dupto

-- ===== src/Tests/Pools.antt =====
-- The theorems on submitted rules, owners and interfaces at concrete values.
use pfctl_rs.Common.{ℕ, ◌≡◌, refl, true, some, List, [], ◌∷◌}
use pfctl_rs.Common.Int.{pos}
use pfctl_rs.Error.{Error, Result, ok, err, panic}
use pfctl_rs.Cstr.{Str, zeros, try_copy_chars}
use pfctl_rs.Net.{Ipv4Addr}
use pfctl_rs.Ffi.{PfPool, PfiKif, zero_rule, zero_kif}
use pfctl_rs.Rule.AddrFamily.{AddrFamily}
use pfctl_rs.Rule.Direction.{Direction}
use pfctl_rs.Rule.Proto.{Proto}
use pfctl_rs.Rule.Port
use pfctl_rs.Rule.Ip
use pfctl_rs.Rule.Interface
use pfctl_rs.Rule.Interface.{description_try_from}
use pfctl_rs.Rule.Interface.Utf8.{is_utf8}
use pfctl_rs.Rule.Interface.Laws.{description_try_from-try_copy_to}
use pfctl_rs.Rule.PoolAddr
use pfctl_rs.Rule.PoolAddr.{PoolAddr}
use pfctl_rs.Rule.Route
use pfctl_rs.Rule.Endpoint
use pfctl_rs.Rule.Endpoint.{Endpoint, NatEndpoint}
use pfctl_rs.Rule.Action
use pfctl_rs.Rule.Owner
use pfctl_rs.Rule.Owner.Laws.{uid_read, gid_read, uid_copy_to-gid_copy_to}
use pfctl_rs.Rule.Nat.{NatRule}
use pfctl_rs.Rule.Redirect.{RedirectRule}
use pfctl_rs.Transaction.{setup_endpoint_pool, setup_nat_pool}
use pfctl_rs.Transaction.Translating.{TranslatesTo, SendsAddress, setup_endpoint_pool-TranslatesTo}
use pfctl_rs.Pfctl.{PfCtl, add_rule}
use pfctl_rs.Pfctl.Removing.{add_rule-route_to}
use pfctl_rs.Tests.Platforms.{macos}
use pfctl_rs.Tests.Kernels.{empty, vpn, demo, rulesets, demo-IsTransactional}
use pfctl_rs.Tests.Transactions.{https}

abbrev localhost : Ipv4Addr
localhost = record { a = 127; b = 0; c = 0; d = 1 }

abbrev any_end : Endpoint macos
any_end = record { ip = Ip.any; port = Port.any }

abbrev proxy : Endpoint macos
proxy = record {
  ip = Ip.net (Ip.v4 (localhost, 32));
  port = Port.range 8080 8090 Port.PortRangeModifier.inclusive;
}

abbrev pub to_proxy : RedirectRule macos
to_proxy = record {
  action = Action.redirect;
  direction = Direction.any;
  quick = true;
  log = record { logs = [] };
  interface = Interface.any;
  proto = Proto.tcp;
  af = AddrFamily.any;
  from = any_end;
  to = any_end;
  label = [];
  user = Owner.default_uid;
  group = Owner.default_gid;
  redirect_to = proxy;
}

-- What a result holds, or a zeroed pool.
abbrev pool_or_zero : Result Error PfPool → PfPool
pool_or_zero (ok p) = p
pool_or_zero (err e) = zero_rule.rpool
pool_or_zero panic = zero_rule.rpool

abbrev proxy_pool : PfPool
proxy_pool = pool_or_zero (setup_endpoint_pool macos demo 3 proxy 7 zero_rule.rpool empty).0

proxy_pool-eq : (setup_endpoint_pool macos demo 3 proxy 7 zero_rule.rpool empty).0 ≡ ok proxy_pool
unfolding setup_endpoint_pool pfctl_rs.Utils.add_pool_address PoolAddr.try_copy_to
    Interface.try_copy_to try_copy_chars zeros PoolAddr.to_pool_addr_list Port.try_copy_to_pool
    pfctl_rs.Kernel.ioctl_guard
proxy_pool-eq = refl

setup_endpoint_pool-TranslatesTo_example :
    let s = (setup_endpoint_pool macos demo 3 proxy 7 zero_rule.rpool empty).1 in
    (TranslatesTo proxy proxy_pool × SendsAddress macos rulesets demo-IsTransactional proxy 7 s)
    × (TranslatesTo proxy proxy_pool × SendsAddress macos rulesets demo-IsTransactional proxy 7 s)
unfolding setup_nat_pool
setup_endpoint_pool-TranslatesTo_example =
    setup_endpoint_pool-TranslatesTo macos rulesets demo-IsTransactional 3 proxy
      (Endpoint.nat_from_endpoint proxy) 7 zero_rule.rpool proxy_pool proxy_pool empty refl
      proxy_pool-eq proxy_pool-eq

abbrev pub from_proxy : NatRule macos
from_proxy = record {
  action = Action.nat (Endpoint.nat_from_endpoint proxy);
  interface = Interface.any;
  af = AddrFamily.ipv4;
  from = any_end;
  to = any_end;
}

uid_copy_to-gid_copy_to_example :
    (uid_read (
        Owner.uid_copy_to
          (record { id = Owner.range 500 600 Owner.IdRangeModifier.inclusive })
          zero_rule.uid)
      ≡ some (Owner.range 500 600 Owner.IdRangeModifier.inclusive))
    × (gid_read (Owner.gid_copy_to (record { id = Owner.from_u32 20 }) zero_rule.gid)
        ≡ some (Owner.from_u32 20))
uid_copy_to-gid_copy_to_example =
    uid_copy_to-gid_copy_to (record { id = Owner.range 500 600 Owner.IdRangeModifier.inclusive })
      (record { id = Owner.from_u32 20 }) zero_rule.uid zero_rule.gid

abbrev en0 : Str
en0 = 101 ∷ 110 ∷ 48 ∷ []

abbrev en0_buffer : List ℕ
en0_buffer = 101 ∷ 110 ∷ 48 ∷ 0 ∷ 0 ∷ 0 ∷ 0 ∷ 0 ∷ []

abbrev en0_kif : PfiKif
en0_kif = record zero_kif { pfik_name = en0_buffer; pfik_flags = pos 256 }

en0_copied : Interface.try_copy_to (Interface.name en0) (zeros 8) ≡ ok en0_buffer
unfolding Interface.try_copy_to try_copy_chars zeros
en0_copied = refl

en0_utf8 : is_utf8 en0 ≡ true
unfolding is_utf8
en0_utf8 = refl

description_try_from-try_copy_to_example :
    description_try_from en0_kif ≡ ok (record { name = en0; flags = Interface.skip })
description_try_from-try_copy_to_example =
    description_try_from-try_copy_to en0 (zeros 8) en0_buffer en0_kif en0_utf8 en0_copied refl

abbrev pf : PfCtl
pf = record { file = 3 }

abbrev gateway : PoolAddr macos
gateway = PoolAddr.from_ip (Ip.net (Ip.v4 (localhost, 32)))

abbrev elsewhere : PoolAddr macos
elsewhere = PoolAddr.from_interface macos (Interface.name en0)

add_rule-route_to_example :
    add_rule macos demo pf vpn (record https { route = Route.route_to gateway }) empty
    ≡ add_rule macos demo pf vpn (record https { route = Route.route_to elsewhere }) empty
add_rule-route_to_example = add_rule-route_to macos demo pf vpn https gateway elsewhere empty

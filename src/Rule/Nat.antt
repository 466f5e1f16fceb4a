-- ===== src/Rule/Nat.antt =====
-- `NatRule` (src/rule/mod.rs).
use pfctl_rs.Common.{Option, none, some}
use pfctl_rs.Error.{Error, Result, ok, ◌>>=◌}
use pfctl_rs.Platform.{Platform}
use pfctl_rs.Ffi.{PfRule}
use pfctl_rs.Rule.AddrFamily
use pfctl_rs.Rule.AddrFamily.{AddrFamily, compatible_af}
use pfctl_rs.Rule.Interface
use pfctl_rs.Rule.Interface.{Interface}
use pfctl_rs.Rule.Endpoint
use pfctl_rs.Rule.Endpoint.{Endpoint, NatEndpoint}
use pfctl_rs.Rule.Action.{NatRuleAction, nat, no_nat, nat_to_u8}

pub record NatRule (P : Platform) : Type 0 where
  pub action : NatRuleAction P
  pub interface : Interface
  pub af : AddrFamily
  pub from : Endpoint P
  pub to : Endpoint P

-- The match of `get_nat_to`.
abbrev pub nat_to_of : {P : Platform} → NatRuleAction P → Option (NatEndpoint P)
nat_to_of (nat nat_to) = some nat_to
nat_to_of no_nat = none

abbrev pub get_nat_to : {P : Platform} → NatRule P → Option (NatEndpoint P)
get_nat_to r = nat_to_of r.action

unfoldable pub get_af : {P : Platform} → NatRule P → Result Error AddrFamily
get_af r = do
  endpoint_af ← compatible_af (Endpoint.get_af r.from) (Endpoint.get_af r.to)
  elim (get_nat_to r) [
    | some nat_to ↦ compatible_af endpoint_af (Endpoint.get_af nat_to.endpoint) >>= λ nat_af.
        compatible_af r.af nat_af
    | none ↦ compatible_af r.af endpoint_af
  ]

-- `impl TryCopyTo<pf_rule> for NatRule`
unfoldable pub try_copy_to : {P : Platform} → NatRule P → PfRule → Result Error PfRule
try_copy_to r pf_rule = do
  ifname ← Interface.try_copy_to r.interface pf_rule.ifname
  af ← get_af r
  src ← Endpoint.try_copy_to r.from pf_rule.src
  dst ← Endpoint.try_copy_to r.to pf_rule.dst
  ok (record pf_rule {
    action = nat_to_u8 r.action;
    ifname = ifname;
    af = AddrFamily.to_u8 af;
    src = src;
    dst = dst;
  })

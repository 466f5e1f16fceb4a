-- ===== src/Rule/Redirect.antt =====
-- `RedirectRule` (src/rule/mod.rs).
use pfctl_rs.Common.{Bool}
use pfctl_rs.Error.{Error, Result, ok, ◌>>=◌, map_err}
use pfctl_rs.Cstr.{Str, try_copy_chars}
use pfctl_rs.Platform.{Platform}
use pfctl_rs.Ffi.{PfRule}
use pfctl_rs.Rule.AddrFamily
use pfctl_rs.Rule.AddrFamily.{AddrFamily, compatible_af}
use pfctl_rs.Rule.Direction
use pfctl_rs.Rule.Direction.{Direction}
use pfctl_rs.Rule.Proto
use pfctl_rs.Rule.Proto.{Proto}
use pfctl_rs.Rule.Log
use pfctl_rs.Rule.Log.{RuleLogSet}
use pfctl_rs.Rule.Owner
use pfctl_rs.Rule.Owner.{Uid, Gid}
use pfctl_rs.Rule.Interface
use pfctl_rs.Rule.Interface.{Interface}
use pfctl_rs.Rule.Endpoint
use pfctl_rs.Rule.Endpoint.{Endpoint}
use pfctl_rs.Rule.Action.{RedirectRuleAction, redirect_to_u8}
use pfctl_rs.Rule.Filter.{bool_to_u8}

pub record RedirectRule (P : Platform) : Type 0 where
  pub action : RedirectRuleAction
  pub direction : Direction
  pub quick : Bool
  pub log : RuleLogSet
  pub interface : Interface
  pub proto : Proto
  pub af : AddrFamily
  pub from : Endpoint P
  pub to : Endpoint P
  pub label : Str
  pub user : Uid
  pub group : Gid
  pub redirect_to : Endpoint P

unfoldable pub get_af : {P : Platform} → RedirectRule P → Result Error AddrFamily
get_af r = do
  endpoint_af ← compatible_af (Endpoint.get_af r.from) (Endpoint.get_af r.to)
  rdr_af ← compatible_af endpoint_af (Endpoint.get_af r.redirect_to)
  compatible_af r.af rdr_af

-- `impl TryCopyTo<pf_rule> for RedirectRule`
unfoldable pub try_copy_to : {P : Platform} → RedirectRule P → PfRule → Result Error PfRule
try_copy_to {P} r pf_rule = do
  ifname ← Interface.try_copy_to r.interface pf_rule.ifname
  af ← get_af r
  src ← Endpoint.try_copy_to r.from pf_rule.src
  dst ← Endpoint.try_copy_to r.to pf_rule.dst
  label ← map_err Error.invalid_label (try_copy_chars r.label pf_rule.label)
  ok (record pf_rule {
    action = redirect_to_u8 r.action;
    direction = Direction.to_u8 r.direction;
    quick = bool_to_u8 r.quick;
    log = Log.to_u8 r.log;
    ifname = ifname;
    proto = Proto.to_u8 P r.proto;
    af = AddrFamily.to_u8 af;
    src = src;
    dst = dst;
    label = label;
    uid = Owner.uid_copy_to r.user pf_rule.uid;
    gid = Owner.gid_copy_to r.group pf_rule.gid;
  })

-- ===== src/Rule/Filter.antt =====
-- `FilterRule` (src/rule/mod.rs).
pub mod Laws
pub mod Decoding
use pfctl_rs.Common.{ℕ, Bool, true, false, String, ◌<>◌, Option, none, some}
use pfctl_rs.Error.{Error, Result, ok, err, ◌>>=◌, map_err}
use pfctl_rs.Cstr.{Str, try_copy_chars}
use pfctl_rs.Platform.{Platform}
use pfctl_rs.Ffi.{PfRule}
use pfctl_rs.Rule.AddrFamily
use pfctl_rs.Rule.AddrFamily.{AddrFamily, compatible_af}
use pfctl_rs.Rule.Direction
use pfctl_rs.Rule.Direction.{Direction}
use pfctl_rs.Rule.Proto
use pfctl_rs.Rule.Proto.{Proto}
use pfctl_rs.Rule.StatePolicy
use pfctl_rs.Rule.StatePolicy.{StatePolicy}
use pfctl_rs.Rule.Log
use pfctl_rs.Rule.Log.{RuleLogSet}
use pfctl_rs.Rule.TcpFlags
use pfctl_rs.Rule.TcpFlags.{TcpFlags}
use pfctl_rs.Rule.Icmp
use pfctl_rs.Rule.Icmp.{IcmpType}
use pfctl_rs.Rule.Owner
use pfctl_rs.Rule.Owner.{Uid, Gid}
use pfctl_rs.Rule.Interface
use pfctl_rs.Rule.Interface.{Interface}
use pfctl_rs.Rule.Route
use pfctl_rs.Rule.Route.{Route}
use pfctl_rs.Rule.Endpoint
use pfctl_rs.Rule.Endpoint.{Endpoint}
use pfctl_rs.Rule.Action.{FilterRuleAction, filter_to_u8, rule_flags}

pub record FilterRule (P : Platform) : Type 0 where
  pub action : FilterRuleAction
  pub direction : Direction
  pub quick : Bool
  pub log : RuleLogSet
  pub route : Route P
  pub keep_state : StatePolicy
  pub interface : Interface
  pub proto : Proto
  pub af : AddrFamily
  pub from : Endpoint P
  pub to : Endpoint P
  pub tcp_flags : TcpFlags
  pub label : Str
  pub user : Uid
  pub group : Gid
  pub icmp_type : Option IcmpType

-- A `bool as u8`.
abbrev pub bool_to_u8 : Bool → ℕ
bool_to_u8 true = 1
bool_to_u8 false = 0

unfoldable pub get_af : {P : Platform} → FilterRule P → Result Error AddrFamily
get_af r = do
  endpoint_af ← compatible_af (Endpoint.get_af r.from) (Endpoint.get_af r.to)
  compatible_af r.af endpoint_af

-- The match on the pair of policy and protocol.
validate : StatePolicy → Proto → Result Error StatePolicy
validate StatePolicy.off proto = ok StatePolicy.off
validate StatePolicy.keep proto = ok StatePolicy.keep
validate StatePolicy.modulate Proto.tcp = ok StatePolicy.modulate
validate StatePolicy.syn_proxy Proto.tcp = ok StatePolicy.syn_proxy
validate policy proto = err (
    Error.invalid_rule_combination (
      "StatePolicy "
      <> StatePolicy.to_string policy
      <> " and protocol "
      <> Proto.to_string proto
      <> " are incompatible"))

unfoldable pub validate_state_policy : {P : Platform} → FilterRule P → Result Error StatePolicy
unfolding validate
validate_state_policy r = validate r.keep_state r.proto

-- `if let Some(icmp_type) = self.icmp_type { icmp_type.copy_to(pf_rule) }`
abbrev copy_icmp : Option IcmpType → PfRule → PfRule
copy_icmp none pf_rule = pf_rule
copy_icmp (some t) pf_rule = Icmp.copy_to t pf_rule

-- `impl TryCopyTo<pf_rule> for FilterRule`. On an error the half-written `pf_rule` is left out:
-- every caller drops it.
unfoldable pub try_copy_to : {P : Platform} → FilterRule P → PfRule → Result Error PfRule
try_copy_to {P} r pf_rule = do
  keep_state ← validate_state_policy r
  ifname ← Interface.try_copy_to r.interface pf_rule.ifname
  af ← get_af r
  src ← Endpoint.try_copy_to r.from pf_rule.src
  dst ← Endpoint.try_copy_to r.to pf_rule.dst
  label ← map_err Error.invalid_label (try_copy_chars r.label pf_rule.label)
  ok (
      copy_icmp r.icmp_type (record pf_rule {
        action = filter_to_u8 r.action;
        direction = Direction.to_u8 r.direction;
        quick = bool_to_u8 r.quick;
        log = Log.to_u8 r.log;
        rt = Route.to_u8 r.route;
        keep_state = StatePolicy.to_u8 keep_state;
        flags = TcpFlags.to_u8 r.tcp_flags.check;
        flagset = TcpFlags.to_u8 r.tcp_flags.mask;
        rule_flag = rule_flags r.action;
        ifname = ifname;
        proto = Proto.to_u8 P r.proto;
        af = AddrFamily.to_u8 af;
        src = src;
        dst = dst;
        label = label;
        uid = Owner.uid_copy_to r.user pf_rule.uid;
        gid = Owner.gid_copy_to r.group pf_rule.gid;
      }))

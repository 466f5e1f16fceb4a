-- ===== src/Rule/Builders.antt =====
-- The builders that derive_builder generates for the rules of src/rule/mod.rs: as parameters, with
-- the behaviour that the attributes of the rules ask for as a hypothesis.
use mathlib.Core.Option.{get_or}
use pfctl_rs.Common.{Bool, false, ◌≡◌, Option, none, some, []}
use pfctl_rs.Error.{Error, Result, ok, err, ◌>>=◌}
use pfctl_rs.Cstr.{Str}
use pfctl_rs.Platform.{Platform}
use pfctl_rs.Rule.AddrFamily.{AddrFamily}
use pfctl_rs.Rule.Direction.{Direction}
use pfctl_rs.Rule.Proto.{Proto}
use pfctl_rs.Rule.StatePolicy.{StatePolicy}
use pfctl_rs.Rule.Log.{RuleLogSet}
use pfctl_rs.Rule.TcpFlags
use pfctl_rs.Rule.TcpFlags.{TcpFlags}
use pfctl_rs.Rule.Icmp.{IcmpType}
use pfctl_rs.Rule.Owner.{Uid, Gid, default_uid, default_gid}
use pfctl_rs.Rule.Ip.{Ip}
use pfctl_rs.Rule.Port.{Port}
use pfctl_rs.Rule.Interface.{Interface}
use pfctl_rs.Rule.Endpoint.{Endpoint}
use pfctl_rs.Rule.Route.{Route}
use pfctl_rs.Rule.Action.{FilterRuleAction, RedirectRuleAction, ScrubRuleAction}
use pfctl_rs.Rule.Filter.{FilterRule}
use pfctl_rs.Rule.Redirect.{RedirectRule}
use pfctl_rs.Rule.Scrub.{ScrubRule}

-- The fields that have been set.
pub record FilterFields (P : Platform) : Type 0 where
  pub action : Option FilterRuleAction
  pub direction : Option Direction
  pub quick : Option Bool
  pub log : Option RuleLogSet
  pub route : Option (Route P)
  pub keep_state : Option StatePolicy
  pub interface : Option Interface
  pub proto : Option Proto
  pub af : Option AddrFamily
  pub from : Option (Endpoint P)
  pub to : Option (Endpoint P)
  pub tcp_flags : Option TcpFlags
  pub label : Option Str
  pub user : Option Uid
  pub group : Option Gid
  pub icmp_type : Option (Option IcmpType)

pub record RedirectFields (P : Platform) : Type 0 where
  pub action : Option RedirectRuleAction
  pub direction : Option Direction
  pub quick : Option Bool
  pub log : Option RuleLogSet
  pub interface : Option Interface
  pub proto : Option Proto
  pub af : Option AddrFamily
  pub from : Option (Endpoint P)
  pub to : Option (Endpoint P)
  pub label : Option Str
  pub user : Option Uid
  pub group : Option Gid
  pub redirect_to : Option (Endpoint P)

pub record ScrubFields : Type 0 where
  pub action : Option ScrubRuleAction
  pub direction : Option Direction

abbrev pub no_filter_fields : (P : Platform) → FilterFields P
no_filter_fields P = record {
  action = none;
  direction = none;
  quick = none;
  log = none;
  route = none;
  keep_state = none;
  interface = none;
  proto = none;
  af = none;
  from = none;
  to = none;
  tcp_flags = none;
  label = none;
  user = none;
  group = none;
  icmp_type = none;
}

abbrev pub no_redirect_fields : (P : Platform) → RedirectFields P
no_redirect_fields P = record {
  action = none;
  direction = none;
  quick = none;
  log = none;
  interface = none;
  proto = none;
  af = none;
  from = none;
  to = none;
  label = none;
  user = none;
  group = none;
  redirect_to = none;
}

abbrev pub no_scrub_fields : ScrubFields
no_scrub_fields = record { action = none; direction = none }

-- `UninitializedFieldError`
abbrev required : {A : Type 0} → Option A → Result Error A
required none = err Error.uninitialized_field_error
required (some a) = ok a

abbrev pub any_endpoint : (P : Platform) → Endpoint P
any_endpoint P = record { ip = Ip.any; port = Port.any }

-- The rule with the fields that are set, and with the default of each other field that has
-- `#[builder(default)]`.
abbrev pub filter_rule : {P : Platform} → FilterFields P → Result Error (FilterRule P)
filter_rule {P} f = do
  action ← required f.action
  ok (record {
    action = action;
    direction = get_or f.direction Direction.any;
    quick = get_or f.quick false;
    log = get_or f.log (record { logs = [] });
    route = get_or f.route Route.no_route;
    keep_state = get_or f.keep_state StatePolicy.off;
    interface = get_or f.interface Interface.any;
    proto = get_or f.proto Proto.any;
    af = get_or f.af AddrFamily.any;
    from = get_or f.from (any_endpoint P);
    to = get_or f.to (any_endpoint P);
    tcp_flags = get_or f.tcp_flags (TcpFlags.new [] []);
    label = get_or f.label [];
    user = get_or f.user default_uid;
    group = get_or f.group default_gid;
    icmp_type = get_or f.icmp_type none;
  })

abbrev pub redirect_rule : {P : Platform} → RedirectFields P → Result Error (RedirectRule P)
redirect_rule {P} f = do
  action ← required f.action
  redirect_to ← required f.redirect_to
  ok (record {
    action = action;
    direction = get_or f.direction Direction.any;
    quick = get_or f.quick false;
    log = get_or f.log (record { logs = [] });
    interface = get_or f.interface Interface.any;
    proto = get_or f.proto Proto.any;
    af = get_or f.af AddrFamily.any;
    from = get_or f.from (any_endpoint P);
    to = get_or f.to (any_endpoint P);
    label = get_or f.label [];
    user = get_or f.user default_uid;
    group = get_or f.group default_gid;
    redirect_to = redirect_to;
  })

abbrev pub scrub_rule : ScrubFields → Result Error ScrubRule
scrub_rule f = do
  action ← required f.action
  ok (record { action = action; direction = get_or f.direction Direction.any })

-- The generated builders, with the setters that are used.
pub record Builders (P : Platform) : Type 1 where
  pub FilterRuleBuilder : Type 0
  pub filter_default : FilterRuleBuilder
  pub filter_action : FilterRuleAction → FilterRuleBuilder → FilterRuleBuilder
  pub filter_quick : Bool → FilterRuleBuilder → FilterRuleBuilder
  pub filter_interface : Interface → FilterRuleBuilder → FilterRuleBuilder
  pub filter_proto : Proto → FilterRuleBuilder → FilterRuleBuilder
  pub filter_af : AddrFamily → FilterRuleBuilder → FilterRuleBuilder
  pub filter_from : Endpoint P → FilterRuleBuilder → FilterRuleBuilder
  pub filter_to : Endpoint P → FilterRuleBuilder → FilterRuleBuilder
  pub filter_icmp_type : Option IcmpType → FilterRuleBuilder → FilterRuleBuilder
  pub filter_build : FilterRuleBuilder → Result Error (FilterRule P)
  pub RedirectRuleBuilder : Type 0
  pub redirect_default : RedirectRuleBuilder
  pub redirect_action : RedirectRuleAction → RedirectRuleBuilder → RedirectRuleBuilder
  pub redirect_direction : Direction → RedirectRuleBuilder → RedirectRuleBuilder
  pub redirect_proto : Proto → RedirectRuleBuilder → RedirectRuleBuilder
  pub redirect_af : AddrFamily → RedirectRuleBuilder → RedirectRuleBuilder
  pub redirect_to : Endpoint P → RedirectRuleBuilder → RedirectRuleBuilder
  pub redirect_redirect_to : Endpoint P → RedirectRuleBuilder → RedirectRuleBuilder
  pub redirect_build : RedirectRuleBuilder → Result Error (RedirectRule P)
  pub ScrubRuleBuilder : Type 0
  pub scrub_default : ScrubRuleBuilder
  pub scrub_action : ScrubRuleAction → ScrubRuleBuilder → ScrubRuleBuilder
  pub scrub_build : ScrubRuleBuilder → Result Error ScrubRule

-- A builder starts with no field set; a setter sets its field and no other; and `build` gives the
-- rule of the fields, or the error of a missing required field.
pub record BuildsRules (P : Platform) (B : Builders P) : Type 0 where
  pub filter_fields : B.FilterRuleBuilder → FilterFields P
  pub filter_starts : filter_fields B.filter_default ≡ no_filter_fields P
  pub filter_sets_action :
      (x : FilterRuleAction) (b : B.FilterRuleBuilder)
      → filter_fields (B.filter_action x b) ≡ record (filter_fields b) { action = some x }
  pub filter_sets_quick :
      (x : Bool) (b : B.FilterRuleBuilder)
      → filter_fields (B.filter_quick x b) ≡ record (filter_fields b) { quick = some x }
  pub filter_sets_interface :
      (x : Interface) (b : B.FilterRuleBuilder)
      → filter_fields (B.filter_interface x b) ≡ record (filter_fields b) { interface = some x }
  pub filter_sets_proto :
      (x : Proto) (b : B.FilterRuleBuilder)
      → filter_fields (B.filter_proto x b) ≡ record (filter_fields b) { proto = some x }
  pub filter_sets_af :
      (x : AddrFamily) (b : B.FilterRuleBuilder)
      → filter_fields (B.filter_af x b) ≡ record (filter_fields b) { af = some x }
  pub filter_sets_from :
      (x : Endpoint P) (b : B.FilterRuleBuilder)
      → filter_fields (B.filter_from x b) ≡ record (filter_fields b) { from = some x }
  pub filter_sets_to :
      (x : Endpoint P) (b : B.FilterRuleBuilder)
      → filter_fields (B.filter_to x b) ≡ record (filter_fields b) { to = some x }
  pub filter_sets_icmp_type :
      (x : Option IcmpType) (b : B.FilterRuleBuilder)
      → filter_fields (B.filter_icmp_type x b) ≡ record (filter_fields b) { icmp_type = some x }
  pub filter_builds : (b : B.FilterRuleBuilder) → B.filter_build b ≡ filter_rule (filter_fields b)
  pub redirect_fields : B.RedirectRuleBuilder → RedirectFields P
  pub redirect_starts : redirect_fields B.redirect_default ≡ no_redirect_fields P
  pub redirect_sets_action :
      (x : RedirectRuleAction) (b : B.RedirectRuleBuilder)
      → redirect_fields (B.redirect_action x b) ≡ record (redirect_fields b) { action = some x }
  pub redirect_sets_direction :
      (x : Direction) (b : B.RedirectRuleBuilder)
      → redirect_fields (B.redirect_direction x b)
        ≡ record (redirect_fields b) { direction = some x }
  pub redirect_sets_proto :
      (x : Proto) (b : B.RedirectRuleBuilder)
      → redirect_fields (B.redirect_proto x b) ≡ record (redirect_fields b) { proto = some x }
  pub redirect_sets_af :
      (x : AddrFamily) (b : B.RedirectRuleBuilder)
      → redirect_fields (B.redirect_af x b) ≡ record (redirect_fields b) { af = some x }
  pub redirect_sets_to :
      (x : Endpoint P) (b : B.RedirectRuleBuilder)
      → redirect_fields (B.redirect_to x b) ≡ record (redirect_fields b) { to = some x }
  pub redirect_sets_redirect_to :
      (x : Endpoint P) (b : B.RedirectRuleBuilder)
      → redirect_fields (B.redirect_redirect_to x b)
        ≡ record (redirect_fields b) { redirect_to = some x }
  pub redirect_builds :
      (b : B.RedirectRuleBuilder) → B.redirect_build b ≡ redirect_rule (redirect_fields b)
  pub scrub_fields : B.ScrubRuleBuilder → ScrubFields
  pub scrub_starts : scrub_fields B.scrub_default ≡ no_scrub_fields
  pub scrub_sets_action :
      (x : ScrubRuleAction) (b : B.ScrubRuleBuilder)
      → scrub_fields (B.scrub_action x b) ≡ record (scrub_fields b) { action = some x }
  pub scrub_builds : (b : B.ScrubRuleBuilder) → B.scrub_build b ≡ scrub_rule (scrub_fields b)

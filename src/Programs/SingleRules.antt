-- ===== src/Programs/SingleRules.antt =====
-- The rules of examples/add_rules.rs.
pub mod Built
use pfctl_rs.Common.{true, some, [], ◌∷◌}
use pfctl_rs.Error.{Error, Result, ok, ◌>>=◌, unwrap}
use pfctl_rs.Cstr.{Str}
use pfctl_rs.Platform.{Platform}
use pfctl_rs.Net.{Ipv4Addr}
use pfctl_rs.Rule.AddrFamily.{AddrFamily}
use pfctl_rs.Rule.Direction.{Direction}
use pfctl_rs.Rule.Proto.{Proto}
use pfctl_rs.Rule.Icmp
use pfctl_rs.Rule.Icmp.{IcmpType}
use pfctl_rs.Rule.Port
use pfctl_rs.Rule.Ip
use pfctl_rs.Rule.Interface
use pfctl_rs.Rule.Endpoint
use pfctl_rs.Rule.Action
use pfctl_rs.Rule.Filter.{FilterRule}
use pfctl_rs.Rule.Redirect.{RedirectRule}
use pfctl_rs.Rule.Scrub.{ScrubRule}
use pfctl_rs.Rule.Builders.{Builders}
use pfctl_rs.Programs.Main.{expect_ok}

-- "utun0"
abbrev pub utun0 : Str
utun0 = 117 ∷ 116 ∷ 117 ∷ 110 ∷ 48 ∷ []

abbrev pub private_ip : Ipv4Addr
private_ip = record { a = 10; b = 0; c = 0; d = 0 }

abbrev pub localhost : Ipv4Addr
localhost = record { a = 127; b = 0; c = 0; d = 1 }

-- The rules, each by `.build().unwrap()`.
pub record Rules (P : Platform) : Type 0 where
  pub pass_all : FilterRule P
  pub pass_all_ipv4_quick : FilterRule P
  pub pass_all_ipv6_on_utun0 : FilterRule P
  pub pass_all_icmp_echo_req : FilterRule P
  pub pass_all_icmp_port_unreach : FilterRule P
  pub pass_all_icmp_timex_transit : FilterRule P
  pub pass_all_icmp_timex_reassembly : FilterRule P
  pub block_a_private_net : FilterRule P
  pub redirect_incoming_tcp : RedirectRule P
  pub scrub : ScrubRule

module _ (P : Platform) (B : Builders P) where
  -- A filter rule that passes everything, before its other fields are set.
  abbrev pub passing : B.FilterRuleBuilder
  passing = B.filter_action Action.pass B.filter_default

  -- What the four rules for ICMP share.
  abbrev pub passing_icmp : IcmpType → B.FilterRuleBuilder
  passing_icmp icmp_type =
      B.filter_icmp_type (some icmp_type)
        (B.filter_proto Proto.icmp (B.filter_af AddrFamily.ipv4 passing))

  abbrev pub redirecting : Ip.Ip P → B.RedirectRuleBuilder
  redirecting ip =
      B.redirect_redirect_to (record { ip = ip; port = Port.one 4000 Port.equal })
        (B.redirect_to (Endpoint.from_port P (Port.one 3000 Port.equal)) (
          B.redirect_direction Direction.inward (
            B.redirect_proto Proto.tcp (
              B.redirect_af AddrFamily.ipv4
                (B.redirect_action Action.RedirectRuleAction.redirect B.redirect_default)))))

  unfoldable pub rules : Result Error (Rules P)
  unfolding Ip.from_ipv4
  rules = do
    pass_all ← expect_ok (B.filter_build passing)
    pass_all_ipv4_quick ←
        expect_ok (B.filter_build (B.filter_quick true (B.filter_af AddrFamily.ipv4 passing)))
    pass_all_ipv6_on_utun0 ← expect_ok (
        B.filter_build
          (B.filter_interface (Interface.name utun0) (B.filter_af AddrFamily.ipv6 passing)))
    pass_all_icmp_echo_req ← expect_ok (B.filter_build (passing_icmp IcmpType.echo_req))
    pass_all_icmp_port_unreach ←
        expect_ok (B.filter_build (passing_icmp (IcmpType.unreach Icmp.port_unreach)))
    pass_all_icmp_timex_transit ←
        expect_ok (B.filter_build (passing_icmp (IcmpType.timex Icmp.transit)))
    pass_all_icmp_timex_reassembly ←
        expect_ok (B.filter_build (passing_icmp (IcmpType.timex Icmp.reassembly)))
    private_net ← unwrap (P.ipv4_network_new private_ip 8)
    block_a_private_net ← expect_ok (
        B.filter_build (
          B.filter_from (Endpoint.from_ip {P = P} (Ip.net (Ip.v4 private_net)))
            (B.filter_action (Action.drop Action.DropAction.silent) B.filter_default)))
    ip ← Ip.from_ipv4 P localhost
    redirect_incoming_tcp ← expect_ok (B.redirect_build (redirecting ip))
    scrub ← expect_ok (B.scrub_build (B.scrub_action Action.ScrubRuleAction.scrub B.scrub_default))
    ok (record {
      pass_all = pass_all;
      pass_all_ipv4_quick = pass_all_ipv4_quick;
      pass_all_ipv6_on_utun0 = pass_all_ipv6_on_utun0;
      pass_all_icmp_echo_req = pass_all_icmp_echo_req;
      pass_all_icmp_port_unreach = pass_all_icmp_port_unreach;
      pass_all_icmp_timex_transit = pass_all_icmp_timex_transit;
      pass_all_icmp_timex_reassembly = pass_all_icmp_timex_reassembly;
      block_a_private_net = block_a_private_net;
      redirect_incoming_tcp = redirect_incoming_tcp;
      scrub = scrub;
    })

-- ===== src/Programs/SingleRules/Built.antt =====
-- Which rules the builders of examples/add_rules.rs build.
use mathlib.Core.Path.{fun_ext}
use pfctl_rs.Common.{◌≡◌, refl, sym, ap, ◌∙◌, arith, true, false, none, some, []}
use pfctl_rs.Error.{ok, unwrap, ◌>>=◌, >>=-eq-ok}
use pfctl_rs.Platform.{Platform}
use pfctl_rs.Rule.AddrFamily.{AddrFamily}
use pfctl_rs.Rule.Direction.{Direction}
use pfctl_rs.Rule.Proto.{Proto}
use pfctl_rs.Rule.StatePolicy.{StatePolicy}
use pfctl_rs.Rule.TcpFlags
use pfctl_rs.Rule.Owner.{default_uid, default_gid}
use pfctl_rs.Rule.Icmp
use pfctl_rs.Rule.Icmp.{IcmpType}
use pfctl_rs.Rule.Port
use pfctl_rs.Rule.Ip
use pfctl_rs.Rule.Interface.{Interface}
use pfctl_rs.Rule.Route.{Route}
use pfctl_rs.Rule.Endpoint
use pfctl_rs.Rule.Action
use pfctl_rs.Rule.Filter.{FilterRule}
use pfctl_rs.Rule.Redirect.{RedirectRule}
use pfctl_rs.Rule.Builders.{Builders, BuildsRules, any_endpoint}
use pfctl_rs.Programs.SingleRules.{
  Rules, rules, utun0, private_ip, localhost, passing, passing_icmp, redirecting,
}

-- The rule that passes everything.
abbrev pub passes : (P : Platform) → FilterRule P
passes P = record {
  action = Action.pass;
  direction = Direction.any;
  quick = false;
  log = record { logs = [] };
  route = Route.no_route;
  keep_state = StatePolicy.off;
  interface = Interface.any;
  proto = Proto.any;
  af = AddrFamily.any;
  from = any_endpoint P;
  to = any_endpoint P;
  tcp_flags = TcpFlags.new [] [];
  label = [];
  user = default_uid;
  group = default_gid;
  icmp_type = none;
}

abbrev pub passes_icmp : (P : Platform) → IcmpType → FilterRule P
passes_icmp P icmp_type = record (passes P) {
  af = AddrFamily.ipv4;
  proto = Proto.icmp;
  icmp_type = some icmp_type;
}

abbrev pub redirects_tcp : {P : Platform} → Ip.Ip P → RedirectRule P
redirects_tcp {P} ip = record {
  action = Action.RedirectRuleAction.redirect;
  direction = Direction.inward;
  quick = false;
  log = record { logs = [] };
  interface = Interface.any;
  proto = Proto.tcp;
  af = AddrFamily.ipv4;
  from = any_endpoint P;
  to = Endpoint.from_port P (Port.one 3000 Port.equal);
  label = [];
  user = default_uid;
  group = default_gid;
  redirect_to = record { ip = ip; port = Port.one 4000 Port.equal };
}

-- The rules of the program, for the private network and the address of the host itself.
abbrev pub built : (P : Platform) → P.Ipv4Network → Ip.Ip P → Rules P
built P private_net ip = record {
  pass_all = passes P;
  pass_all_ipv4_quick = record (passes P) { af = AddrFamily.ipv4; quick = true };
  pass_all_ipv6_on_utun0 = record (passes P) {
    af = AddrFamily.ipv6;
    interface = Interface.name utun0;
  };
  pass_all_icmp_echo_req = passes_icmp P IcmpType.echo_req;
  pass_all_icmp_port_unreach = passes_icmp P (IcmpType.unreach Icmp.port_unreach);
  pass_all_icmp_timex_transit = passes_icmp P (IcmpType.timex Icmp.transit);
  pass_all_icmp_timex_reassembly = passes_icmp P (IcmpType.timex Icmp.reassembly);
  block_a_private_net = record (passes P) {
    action = Action.drop Action.DropAction.silent;
    from = Endpoint.from_ip {P = P} (Ip.net (Ip.v4 private_net));
  };
  redirect_incoming_tcp = redirects_tcp ip;
  scrub = record { action = Action.ScrubRuleAction.scrub; direction = Direction.any };
}

module _ (P : Platform) (B : Builders P) (R : BuildsRules P B) where
  pass_all-eq : B.filter_build (passing P B) ≡ ok (passes P)
  pass_all-eq = rw (R.filter_builds, R.filter_sets_action, R.filter_starts) refl

  ipv4_quick-eq :
      B.filter_build (B.filter_quick true (B.filter_af AddrFamily.ipv4 (passing P B)))
      ≡ ok (record (passes P) { af = AddrFamily.ipv4; quick = true })
  ipv4_quick-eq =
      rw
        (
          R.filter_builds, R.filter_sets_quick, R.filter_sets_af, R.filter_sets_action,
          R.filter_starts,
        )
        refl

  ipv6_on_utun0-eq :
      B.filter_build
        (B.filter_interface (Interface.name utun0) (B.filter_af AddrFamily.ipv6 (passing P B)))
      ≡ ok (record (passes P) { af = AddrFamily.ipv6; interface = Interface.name utun0 })
  ipv6_on_utun0-eq =
      rw
        (
          R.filter_builds, R.filter_sets_interface, R.filter_sets_af, R.filter_sets_action,
          R.filter_starts,
        )
        refl

  icmp-eq :
      (icmp_type : IcmpType)
      → B.filter_build (passing_icmp P B icmp_type) ≡ ok (passes_icmp P icmp_type)
  icmp-eq icmp_type =
      rw
        (
          R.filter_builds, R.filter_sets_icmp_type, R.filter_sets_proto, R.filter_sets_af,
          R.filter_sets_action, R.filter_starts,
        )
        refl

  block-eq :
      (n : P.Ipv4Network)
      → B.filter_build (
          B.filter_from
            (Endpoint.from_ip {P = P} (Ip.net (Ip.v4 n)))
            (B.filter_action (Action.drop Action.DropAction.silent) B.filter_default))
        ≡ ok (record (passes P) {
          action = Action.drop Action.DropAction.silent;
          from = Endpoint.from_ip {P = P} (Ip.net (Ip.v4 n));
        })
  block-eq n = rw (R.filter_builds, R.filter_sets_from, R.filter_sets_action, R.filter_starts) refl

  redirect-eq : (ip : Ip.Ip P) → B.redirect_build (redirecting P B ip) ≡ ok (redirects_tcp ip)
  redirect-eq ip =
      rw
        (
          R.redirect_builds, R.redirect_sets_redirect_to, R.redirect_sets_to,
          R.redirect_sets_direction, R.redirect_sets_proto, R.redirect_sets_af,
          R.redirect_sets_action, R.redirect_starts,
        )
        refl

  scrub-eq :
      B.scrub_build (B.scrub_action Action.ScrubRuleAction.scrub B.scrub_default)
      ≡ ok (record { action = Action.ScrubRuleAction.scrub; direction = Direction.any })
  scrub-eq = rw (R.scrub_builds, R.scrub_sets_action, R.scrub_starts) refl

  -- The two conversions of addresses are all that can fail.
  rules-eq : rules P B ≡ (
      unwrap (P.ipv4_network_new private_ip 8) >>= λ n.
      Ip.from_ipv4 P localhost >>= λ ip. ok (built P n ip))
  unfolding rules
  rules-eq =
      rw
        (
          pass_all-eq,
          ipv4_quick-eq,
          ipv6_on_utun0-eq,
          icmp-eq IcmpType.echo_req,
          icmp-eq (IcmpType.unreach Icmp.port_unreach),
          icmp-eq (IcmpType.timex Icmp.transit),
          icmp-eq (IcmpType.timex Icmp.reassembly),
        )
        (ap (λ k. unwrap (P.ipv4_network_new private_ip 8) >>= k)
          (fun_ext (λ n. rw (block-eq n) (
            ap (λ k. Ip.from_ipv4 P localhost >>= k)
              (fun_ext (λ ip. rw (redirect-eq ip, scrub-eq) refl))))))

  -- If all the rules are built, then they are these.
  pub rules-built :
      (x : Rules P)
      → rules P B ≡ ok x
      → (n : P.Ipv4Network) × (ip : Ip.Ip P) × (P.ipv4_network_new private_ip 8 ≡ some n)
        × (Ip.from_ipv4 P localhost ≡ ok ip)
        × (x ≡ built P n ip)
  rules-built x h =
      let rest = λ (n : P.Ipv4Network). Ip.from_ipv4 P localhost >>= λ ip. ok (built P n ip) in
      let (n, net, h') =
        >>=-eq-ok (unwrap (P.ipv4_network_new private_ip 8)) rest (sym rules-eq ∙ h) in
      let (ip, host, h'') = >>=-eq-ok (Ip.from_ipv4 P localhost) (λ ip. ok (built P n ip)) h' in
      (n, ip, ground arith, host, ground arith)

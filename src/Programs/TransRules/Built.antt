-- ===== src/Programs/TransRules/Built.antt =====
-- Which rules the builders of examples/transaction.rs build.
use pfctl_rs.Common.{◌≡◌, refl, false, none, [], arith}
use pfctl_rs.Error
use pfctl_rs.Error.{Result, ok, err, panic}
use pfctl_rs.Platform.{Platform}
use pfctl_rs.Net.{IpAddr}
use pfctl_rs.Rule.AddrFamily.{AddrFamily}
use pfctl_rs.Rule.Direction.{Direction}
use pfctl_rs.Rule.Proto.{Proto}
use pfctl_rs.Rule.StatePolicy.{StatePolicy}
use pfctl_rs.Rule.TcpFlags
use pfctl_rs.Rule.Owner.{default_uid, default_gid}
use pfctl_rs.Rule.Port
use pfctl_rs.Rule.Interface.{Interface}
use pfctl_rs.Rule.Route.{Route}
use pfctl_rs.Rule.Endpoint
use pfctl_rs.Rule.Endpoint.{Endpoint}
use pfctl_rs.Rule.Action
use pfctl_rs.Rule.Filter.{FilterRule}
use pfctl_rs.Rule.Redirect.{RedirectRule}
use pfctl_rs.Rule.Scrub.{ScrubRule}
use pfctl_rs.Rule.Builders.{Builders, BuildsRules, any_endpoint}
use pfctl_rs.Programs.Main.{expect_ok}
use pfctl_rs.Programs.TransRules.{
  first_ip, second_ip, trans_rule1, trans_rule2, trans_rule3, trans_rule4,
}

-- The rules of the program: drop what comes from an endpoint and goes to another; redirect from one
-- port to another; scrub.
abbrev pub drops : {P : Platform} → Endpoint P → Endpoint P → FilterRule P
drops from to = record {
  action = Action.drop Action.DropAction.silent;
  direction = Direction.any;
  quick = false;
  log = record { logs = [] };
  route = Route.no_route;
  keep_state = StatePolicy.off;
  interface = Interface.any;
  proto = Proto.any;
  af = AddrFamily.any;
  from = from;
  to = to;
  tcp_flags = TcpFlags.new [] [];
  label = [];
  user = default_uid;
  group = default_gid;
  icmp_type = none;
}

abbrev pub redirects : (P : Platform) → Port.Port → Port.Port → RedirectRule P
redirects P to redirect_to = record {
  action = Action.RedirectRuleAction.redirect;
  direction = Direction.any;
  quick = false;
  log = record { logs = [] };
  interface = Interface.any;
  proto = Proto.any;
  af = AddrFamily.any;
  from = any_endpoint P;
  to = Endpoint.from_port P to;
  label = [];
  user = default_uid;
  group = default_gid;
  redirect_to = Endpoint.from_port P redirect_to;
}

abbrev pub scrubs : ScrubRule
scrubs = record { action = Action.ScrubRuleAction.scrub; direction = Direction.any }

module _ (P : Platform) (B : Builders P) (R : BuildsRules P B) where
  pub drop_rule-eq :
      (e : Endpoint P)
      → B.filter_build (
          B.filter_from e (B.filter_action (Action.drop Action.DropAction.silent) B.filter_default))
        ≡ ok (drops e (any_endpoint P))
  drop_rule-eq e =
      rw (R.filter_builds, R.filter_sets_from, R.filter_sets_action, R.filter_starts) refl

  pub drop_to_rule-eq :
      (e to : Endpoint P)
      → B.filter_build (
          B.filter_to to (
            B.filter_from e
              (B.filter_action (Action.drop Action.DropAction.silent) B.filter_default)))
        ≡ ok (drops e to)
  drop_to_rule-eq e to =
      rw
        (
          R.filter_builds, R.filter_sets_to, R.filter_sets_from, R.filter_sets_action,
          R.filter_starts,
        )
        refl

  pub redirect_rule-eq :
      (to redirect_to : Port.Port)
      → B.redirect_build (
          B.redirect_redirect_to (Endpoint.from_port P redirect_to) (
            B.redirect_to
              (Endpoint.from_port P to)
              (B.redirect_action Action.RedirectRuleAction.redirect B.redirect_default)))
        ≡ ok (redirects P to redirect_to)
  redirect_rule-eq to redirect_to =
      rw
        (
          R.redirect_builds, R.redirect_sets_redirect_to, R.redirect_sets_to,
          R.redirect_sets_action, R.redirect_starts,
        )
        refl

  pub scrub_rule-eq :
      B.scrub_build (B.scrub_action Action.ScrubRuleAction.scrub B.scrub_default) ≡ ok scrubs
  scrub_rule-eq = rw (R.scrub_builds, R.scrub_sets_action, R.scrub_starts) refl

  built-eq :
      {A : Type 0} {x r : A} (m : Result Error.Error A) → m ≡ ok x → expect_ok m ≡ ok r → r ≡ x
  built-eq m e h = ground arith

  pub rule1-eq :
      (r : FilterRule P)
      → trans_rule1 P B ≡ ok r
      → (e : Endpoint P) × (Endpoint.from_addr P (IpAddr.v4 first_ip) ≡ ok e)
        × (r ≡ drops e (any_endpoint P))
  unfolding trans_rule1
  rule1-eq r h =
      let (e, named, built) = Error.>>=-eq-ok (Endpoint.from_addr P (IpAddr.v4 first_ip)) _ h in
      (e, named, built-eq _ (drop_rule-eq e) built)

  pub rule2-eq :
      (r : FilterRule P)
      → trans_rule2 P B ≡ ok r
      → (e : Endpoint P) × (Endpoint.from_addr P (IpAddr.v4 second_ip) ≡ ok e)
        × (r ≡ drops e (Endpoint.from_port P (Port.from_u16 80)))
  unfolding trans_rule2
  rule2-eq r h =
      let (e, named, built) = Error.>>=-eq-ok (Endpoint.from_addr P (IpAddr.v4 second_ip)) _ h in
      (e, named, built-eq _ (drop_to_rule-eq e (Endpoint.from_port P (Port.from_u16 80))) built)

  pub rule3-eq :
      (r : RedirectRule P)
      → trans_rule3 P B ≡ ok r
      → r ≡ redirects P (Port.from_u16 1337) (Port.from_u16 1338)
  unfolding trans_rule3
  rule3-eq r h = built-eq _ (redirect_rule-eq (Port.from_u16 1337) (Port.from_u16 1338)) h

  pub rule4-eq : (r : ScrubRule) → trans_rule4 P B ≡ ok r → r ≡ scrubs
  unfolding trans_rule4
  rule4-eq r h = built-eq _ scrub_rule-eq h

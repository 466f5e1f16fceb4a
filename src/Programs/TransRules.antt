-- ===== src/Programs/TransRules.antt =====
-- The rules of examples/transaction.rs.
pub mod Built
pub mod Submitted
use pfctl_rs.Common.{ℕ, List, [], ◌∷◌}
use pfctl_rs.Error.{Error, Result, ◌>>=◌}
use pfctl_rs.Cstr.{Str}
use pfctl_rs.Platform.{Platform}
use pfctl_rs.Net.{Ipv4Addr, IpAddr}
use pfctl_rs.Rule.Port
use pfctl_rs.Rule.Endpoint
use pfctl_rs.Rule.Action
use pfctl_rs.Rule.Filter.{FilterRule}
use pfctl_rs.Rule.Redirect.{RedirectRule}
use pfctl_rs.Rule.Scrub.{ScrubRule}
use pfctl_rs.Rule.Builders.{Builders}
use pfctl_rs.Transaction.{
  AnchorChange, new_change, set_filter_rules, set_redirect_rules, set_scrub_rules,
}
use pfctl_rs.Programs.Main.{expect_ok}

-- 192.168.234.1 and 192.168.234.2.
abbrev pub first_ip : Ipv4Addr
first_ip = record { a = 192; b = 168; c = 234; d = 1 }

abbrev pub second_ip : Ipv4Addr
second_ip = record { a = 192; b = 168; c = 234; d = 2 }

-- `.build().unwrap()` of the four rules.
module _ (P : Platform) (B : Builders P) where
  unfoldable pub trans_rule1 : Result Error (FilterRule P)
  unfolding Endpoint.from_addr
  trans_rule1 = do
    from ← Endpoint.from_addr P (IpAddr.v4 first_ip)
    expect_ok (
        B.filter_build (
          B.filter_from from
            (B.filter_action (Action.drop Action.DropAction.silent) B.filter_default)))

  unfoldable pub trans_rule2 : Result Error (FilterRule P)
  unfolding Endpoint.from_addr
  trans_rule2 = do
    from ← Endpoint.from_addr P (IpAddr.v4 second_ip)
    expect_ok (
        B.filter_build (
          B.filter_to (Endpoint.from_port P (Port.from_u16 80)) (
            B.filter_from from
              (B.filter_action (Action.drop Action.DropAction.silent) B.filter_default))))

  unfoldable pub trans_rule3 : Result Error (RedirectRule P)
  trans_rule3 = expect_ok (
      B.redirect_build (
        B.redirect_redirect_to (Endpoint.from_port P (Port.from_u16 1338)) (
          B.redirect_to (Endpoint.from_port P (Port.from_u16 1337))
            (B.redirect_action Action.RedirectRuleAction.redirect B.redirect_default))))

  unfoldable pub trans_rule4 : Result Error ScrubRule
  trans_rule4 =
      expect_ok (B.scrub_build (B.scrub_action Action.ScrubRuleAction.scrub B.scrub_default))

  -- The change with the four rules.
  abbrev pub trans_change :
      FilterRule P → FilterRule P → RedirectRule P → ScrubRule → AnchorChange P
  trans_change rule1 rule2 rule3 rule4 =
      set_scrub_rules (rule4 ∷ [])
        (set_redirect_rules (rule3 ∷ []) (set_filter_rules (rule1 ∷ rule2 ∷ []) (new_change P)))

-- ===== src/Programs/AddRules.antt =====
-- examples/add_rules.rs
pub mod Appended
use pfctl_rs.Platform.{Platform}
use pfctl_rs.Kernel.{Kernel, Action, pure, lift, ◌>>=◌, ◌>>◌}
use pfctl_rs.Anchor.{AnchorKind}
use pfctl_rs.Rule.Builders.{Builders}
use pfctl_rs.Pfctl.{PfCtl, try_add_anchor, add_rule, add_redirect_rule, add_scrub_rule}
use pfctl_rs.Programs.Main.{expect, with_pf}
use pfctl_rs.Programs.TestAnchor.{anchor_name}
use pfctl_rs.Programs.SingleRules.{Rules, rules}

module _ (P : Platform) (K : Kernel) where
  -- The calls that add the rules.
  unfoldable pub add_them : PfCtl → Rules P → Action K.State (Unit {0})
  unfolding add_rule add_redirect_rule add_scrub_rule
  add_them pf r = do
    expect (add_rule P K pf anchor_name r.pass_all)
    expect (add_rule P K pf anchor_name r.pass_all_ipv4_quick)
    expect (add_rule P K pf anchor_name r.pass_all_ipv6_on_utun0)
    expect (add_rule P K pf anchor_name r.block_a_private_net)
    expect (add_rule P K pf anchor_name r.pass_all_icmp_echo_req)
    expect (add_rule P K pf anchor_name r.pass_all_icmp_port_unreach)
    expect (add_rule P K pf anchor_name r.pass_all_icmp_timex_transit)
    expect (add_rule P K pf anchor_name r.pass_all_icmp_timex_reassembly)
    expect (add_redirect_rule P K pf anchor_name r.redirect_incoming_tcp)
    expect (add_scrub_rule P K pf anchor_name r.scrub)
    pure tt

module _ (P : Platform) (B : Builders P) (K : Kernel) where
  unfoldable pub body : PfCtl → Action K.State (Unit {0})
  unfolding try_add_anchor rules add_them
  body pf = do
    expect (try_add_anchor P K pf anchor_name AnchorKind.filter)
    expect (try_add_anchor P K pf anchor_name AnchorKind.redirect)
    built ← lift (rules P B)
    add_them P K pf built

  unfoldable pub main : Action K.State (Unit {0})
  unfolding with_pf body
  main = with_pf P K body

-- ===== src/Programs/Transaction.antt =====
-- examples/transaction.rs
pub mod Published
pub mod Running
use pfctl_rs.Platform.{Platform}
use pfctl_rs.Kernel.{Kernel, Action, lift, ◌>>=◌, ◌>>◌}
use pfctl_rs.Anchor.{AnchorKind}
use pfctl_rs.Rule.Builders.{Builders}
use pfctl_rs.Pfctl.{PfCtl, try_add_anchor, set_rules}
use pfctl_rs.Programs.Main.{expect, with_pf}
use pfctl_rs.Programs.TestAnchor.{anchor_name}
use pfctl_rs.Programs.TransRules.{trans_rule1, trans_rule2, trans_rule3, trans_rule4, trans_change}

module _ (P : Platform) (B : Builders P) (K : Kernel) where
  -- What follows the three anchors.
  unfoldable pub set_them : PfCtl → Action K.State (Unit {0})
  unfolding trans_rule1 trans_rule2 trans_rule3 trans_rule4 set_rules
  set_them pf = do
    rule1 ← lift (trans_rule1 P B)
    rule2 ← lift (trans_rule2 P B)
    rule3 ← lift (trans_rule3 P B)
    rule4 ← lift (trans_rule4 P B)
    expect (set_rules P K pf anchor_name (trans_change P B rule1 rule2 rule3 rule4))

  unfoldable pub body : PfCtl → Action K.State (Unit {0})
  unfolding try_add_anchor set_them
  body pf = do
    expect (try_add_anchor P K pf anchor_name AnchorKind.filter)
    expect (try_add_anchor P K pf anchor_name AnchorKind.redirect)
    expect (try_add_anchor P K pf anchor_name AnchorKind.scrub)
    set_them pf

  unfoldable pub main : Action K.State (Unit {0})
  unfolding with_pf body
  main = with_pf P K body

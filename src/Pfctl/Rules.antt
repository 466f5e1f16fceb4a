-- ===== src/Pfctl/Rules.antt =====
-- Single rules, and the rules of one anchor as a whole.
use pfctl_rs.Common.{[]}
use pfctl_rs.Cstr.{Str}
use pfctl_rs.Platform.{Platform}
use pfctl_rs.Ffi.{zero_pfioc_rule, pf_change_add_tail}
use pfctl_rs.Kernel.{Kernel, Action, pure, lift, ◌>>=◌, ◌>>◌, ioctl_guard}
use pfctl_rs.Anchor.{AnchorKind, RulesetKind}
use pfctl_rs.Rule.Filter
use pfctl_rs.Rule.Filter.{FilterRule}
use pfctl_rs.Rule.Nat
use pfctl_rs.Rule.Nat.{NatRule, get_nat_to}
use pfctl_rs.Rule.Redirect
use pfctl_rs.Rule.Redirect.{RedirectRule}
use pfctl_rs.Rule.Scrub
use pfctl_rs.Rule.Scrub.{ScrubRule}
use pfctl_rs.Utils.{copy_anchor_name, get_pool_ticket, get_ticket}
use pfctl_rs.Transaction.{
  AnchorChange, new_change, set_filter_rules, set_nat_rules, set_redirect_rules, set_scrub_rules,
  new_transaction, add_change, setup_endpoint_pool, setup_nat_pool, commit,
}
use pfctl_rs.Pfctl.Status.{PfCtl}

module _ (P : Platform) (K : Kernel) where
  unfoldable pub add_rule : PfCtl → Str → FilterRule P → Action K.State (Unit {0})
  unfolding get_pool_ticket get_ticket copy_anchor_name Filter.try_copy_to
  add_rule self anchor rule = do
    pool_ticket ← get_pool_ticket P K self.file
    ticket ← get_ticket P K self.file anchor AnchorKind.filter
    name ← lift (copy_anchor_name anchor zero_pfioc_rule.anchor)
    pf_rule ← lift (Filter.try_copy_to rule zero_pfioc_rule.rule)
    ioctl_guard P (K.pf_change_rule self.file) (record zero_pfioc_rule {
      pool_ticket = pool_ticket;
      ticket = ticket;
      anchor = name;
      rule = pf_rule;
      action = pf_change_add_tail;
    })
    pure tt

  unfoldable pub set_rules : PfCtl → Str → AnchorChange P → Action K.State (Unit {0})
  unfolding add_change commit
  set_rules self anchor change = commit P K (add_change anchor change (new_transaction P))

  unfoldable pub add_nat_rule : PfCtl → Str → NatRule P → Action K.State (Unit {0})
  unfolding get_pool_ticket get_ticket copy_anchor_name Nat.try_copy_to setup_nat_pool
  add_nat_rule self anchor rule = do
    name ← lift (copy_anchor_name anchor zero_pfioc_rule.anchor)
    pf_rule ← lift (Nat.try_copy_to rule zero_pfioc_rule.rule)
    pool_ticket ← get_pool_ticket P K self.file
    rpool ← setup_nat_pool P K self.file (get_nat_to rule) pool_ticket pf_rule.rpool
    ticket ← get_ticket P K self.file anchor AnchorKind.nat
    ioctl_guard P (K.pf_change_rule self.file) (record zero_pfioc_rule {
      pool_ticket = pool_ticket;
      ticket = ticket;
      anchor = name;
      rule = record pf_rule { rpool = rpool };
      action = pf_change_add_tail;
    })
    pure tt

  unfoldable pub add_redirect_rule : PfCtl → Str → RedirectRule P → Action K.State (Unit {0})
  unfolding get_pool_ticket get_ticket copy_anchor_name Redirect.try_copy_to setup_endpoint_pool
  add_redirect_rule self anchor rule = do
    name ← lift (copy_anchor_name anchor zero_pfioc_rule.anchor)
    pf_rule ← lift (Redirect.try_copy_to rule zero_pfioc_rule.rule)
    pool_ticket ← get_pool_ticket P K self.file
    rpool ← setup_endpoint_pool P K self.file rule.redirect_to pool_ticket pf_rule.rpool
    ticket ← get_ticket P K self.file anchor AnchorKind.redirect
    ioctl_guard P (K.pf_change_rule self.file) (record zero_pfioc_rule {
      pool_ticket = pool_ticket;
      ticket = ticket;
      anchor = name;
      rule = record pf_rule { rpool = rpool };
      action = pf_change_add_tail;
    })
    pure tt

  unfoldable pub add_scrub_rule : PfCtl → Str → ScrubRule → Action K.State (Unit {0})
  unfolding get_pool_ticket get_ticket copy_anchor_name Scrub.try_copy_to
  add_scrub_rule self anchor rule = do
    pool_ticket ← get_pool_ticket P K self.file
    ticket ← get_ticket P K self.file anchor AnchorKind.scrub
    name ← lift (copy_anchor_name anchor zero_pfioc_rule.anchor)
    pf_rule ← lift (Scrub.try_copy_to rule zero_pfioc_rule.rule)
    ioctl_guard P (K.pf_change_rule self.file) (record zero_pfioc_rule {
      pool_ticket = pool_ticket;
      ticket = ticket;
      anchor = name;
      rule = pf_rule;
      action = pf_change_add_tail;
    })
    pure tt

  -- The change that `flush_rules` makes.
  abbrev pub flush_change : RulesetKind → AnchorChange P
  flush_change RulesetKind.filter = set_filter_rules [] (new_change P)
  flush_change RulesetKind.nat = set_nat_rules [] (new_change P)
  flush_change RulesetKind.redirect = set_redirect_rules [] (new_change P)
  flush_change RulesetKind.scrub = set_scrub_rules [] (new_change P)

  unfoldable pub flush_rules : PfCtl → Str → RulesetKind → Action K.State (Unit {0})
  unfolding add_change commit
  flush_rules self anchor kind =
      commit P K (add_change anchor (flush_change kind) (new_transaction P))

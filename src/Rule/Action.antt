-- ===== src/Rule/Action.antt =====
-- The actions of the four kinds of rules (src/rule/rule_action.rs).
use pfctl_rs.Common.{ℕ}
use pfctl_rs.Platform.{Platform}
use pfctl_rs.Ffi.{
  pf_pass, pf_drop, pf_nat, pf_nonat, pf_rdr, pf_nordr, pf_scrub, pf_noscrub, pfrule_drop,
  pfrule_return, pfrule_returnrst, pfrule_returnicmp,
}
use pfctl_rs.Rule.Endpoint.{NatEndpoint}

-- `DropAction::Drop` and `DropAction::Return` are `silent` and `reject`.
pub data DropAction : Type 0 where
  silent reject return_rst return_icmp : DropAction

pub data FilterRuleAction : Type 0 where
  pass : FilterRuleAction
  drop : DropAction → FilterRuleAction

-- `u32::from(DropAction)`
abbrev pub drop_to_u32 : DropAction → ℕ
drop_to_u32 silent = pfrule_drop
drop_to_u32 reject = pfrule_return
drop_to_u32 return_rst = pfrule_returnrst
drop_to_u32 return_icmp = pfrule_returnicmp

abbrev pub rule_flags : FilterRuleAction → ℕ
rule_flags pass = 0
rule_flags (drop action) = drop_to_u32 action

-- `u8::from`, for each kind of action
abbrev pub filter_to_u8 : FilterRuleAction → ℕ
filter_to_u8 pass = pf_pass
filter_to_u8 (drop action) = pf_drop

pub data NatRuleAction (P : Platform) : Type 0 where
  nat : NatEndpoint P → NatRuleAction P
  no_nat : NatRuleAction P

abbrev pub nat_to_u8 : {P : Platform} → NatRuleAction P → ℕ
nat_to_u8 (nat nat_to) = pf_nat
nat_to_u8 no_nat = pf_nonat

pub data RedirectRuleAction : Type 0 where
  redirect no_redirect : RedirectRuleAction

abbrev pub redirect_to_u8 : RedirectRuleAction → ℕ
redirect_to_u8 redirect = pf_rdr
redirect_to_u8 no_redirect = pf_nordr

pub data ScrubRuleAction : Type 0 where
  scrub no_scrub : ScrubRuleAction

abbrev pub scrub_to_u8 : ScrubRuleAction → ℕ
scrub_to_u8 scrub = pf_scrub
scrub_to_u8 no_scrub = pf_noscrub

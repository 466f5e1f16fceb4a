-- ===== src/Anchor.antt =====
-- `AnchorKind` (src/anchor.rs) and `RulesetKind` (src/ruleset.rs).
use pfctl_rs.Common.{ℕ}
use pfctl_rs.Common.Int.{ℤ, pos}
use pfctl_rs.Ffi.{
  pf_pass, pf_nat, pf_rdr, pf_scrub, pf_ruleset_filter, pf_ruleset_nat, pf_ruleset_rdr,
  pf_ruleset_scrub,
}

pub data AnchorKind : Type 0 where
  filter nat redirect scrub : AnchorKind

-- `u8::from(AnchorKind)`
abbrev pub anchor_to_u8 : AnchorKind → ℕ
anchor_to_u8 AnchorKind.filter = pf_pass
anchor_to_u8 AnchorKind.nat = pf_nat
anchor_to_u8 AnchorKind.redirect = pf_rdr
anchor_to_u8 AnchorKind.scrub = pf_scrub

pub data RulesetKind : Type 0 where
  filter nat redirect scrub : RulesetKind

-- `i32::from(RulesetKind)`
abbrev pub ruleset_to_i32 : RulesetKind → ℤ
ruleset_to_i32 RulesetKind.filter = pos pf_ruleset_filter
ruleset_to_i32 RulesetKind.nat = pos pf_ruleset_nat
ruleset_to_i32 RulesetKind.redirect = pos pf_ruleset_rdr
ruleset_to_i32 RulesetKind.scrub = pos pf_ruleset_scrub

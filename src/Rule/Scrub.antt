-- ===== src/Rule/Scrub.antt =====
-- `ScrubRule` (src/rule/mod.rs).
use pfctl_rs.Error.{Error, Result, ok}
use pfctl_rs.Ffi.{PfRule}
use pfctl_rs.Rule.Direction
use pfctl_rs.Rule.Direction.{Direction}
use pfctl_rs.Rule.Action.{ScrubRuleAction, scrub_to_u8}

pub record ScrubRule : Type 0 where
  pub action : ScrubRuleAction
  pub direction : Direction

-- `impl TryCopyTo<pf_rule> for ScrubRule`
unfoldable pub try_copy_to : ScrubRule → PfRule → Result Error PfRule
try_copy_to r pf_rule =
    ok (record pf_rule { action = scrub_to_u8 r.action; direction = Direction.to_u8 r.direction })

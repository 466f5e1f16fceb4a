-- ===== src/Rule/Owner.antt =====
-- `Id` (here `OwnerId`), `Uid` (src/rule/uid.rs) and `Gid` (src/rule/gid.rs).
pub mod Laws
use pfctl_rs.Common.{ℕ}
use pfctl_rs.Ffi.{
  PfRuleUid, PfRuleGid, pf_op_none, pf_op_eq, pf_op_ne, pf_op_lt, pf_op_le, pf_op_gt, pf_op_ge,
  pf_op_irg, pf_op_rrg, pf_op_xrg,
}

pub data IdUnaryModifier : Type 0 where
  equal not_equal less less_or_equal greater greater_or_equal : IdUnaryModifier

pub data IdRangeModifier : Type 0 where
  exclusive inclusive except : IdRangeModifier

pub data OwnerId : Type 0 where
  any : OwnerId
  one : ℕ → IdUnaryModifier → OwnerId
  range : ℕ → ℕ → IdRangeModifier → OwnerId

-- `From<u32>`
abbrev pub from_u32 : ℕ → OwnerId
from_u32 uid = one uid equal

abbrev pub unary_to_u8 : IdUnaryModifier → ℕ
unary_to_u8 equal = pf_op_eq
unary_to_u8 not_equal = pf_op_ne
unary_to_u8 greater = pf_op_gt
unary_to_u8 less = pf_op_lt
unary_to_u8 greater_or_equal = pf_op_ge
unary_to_u8 less_or_equal = pf_op_le

abbrev pub range_to_u8 : IdRangeModifier → ℕ
range_to_u8 exclusive = pf_op_irg
range_to_u8 inclusive = pf_op_rrg
range_to_u8 except = pf_op_xrg

pub record Uid : Type 0 where
  pub id : OwnerId

pub record Gid : Type 0 where
  pub id : OwnerId

abbrev pub default_uid : Uid
default_uid = record { id = any }

abbrev pub default_gid : Gid
default_gid = record { id = any }

copy_uid : OwnerId → PfRuleUid → PfRuleUid
copy_uid any dst = record dst { uid0 = 0; op = pf_op_none }
copy_uid (one uid modifier) dst = record dst { uid0 = uid; op = unary_to_u8 modifier }
copy_uid (range start_uid end_uid modifier) dst = record dst {
  uid0 = start_uid;
  uid1 = end_uid;
  op = range_to_u8 modifier;
}

-- `impl CopyTo<pf_rule_uid> for Uid`
unfoldable pub uid_copy_to : Uid → PfRuleUid → PfRuleUid
unfolding copy_uid
uid_copy_to uid = copy_uid uid.id

copy_gid : OwnerId → PfRuleGid → PfRuleGid
copy_gid any dst = record dst { gid0 = 0; op = pf_op_none }
copy_gid (one gid modifier) dst = record dst { gid0 = gid; op = unary_to_u8 modifier }
copy_gid (range start_gid end_gid modifier) dst = record dst {
  gid0 = start_gid;
  gid1 = end_gid;
  op = range_to_u8 modifier;
}

-- `impl CopyTo<pf_rule_gid> for Gid`
unfoldable pub gid_copy_to : Gid → PfRuleGid → PfRuleGid
unfolding copy_gid
gid_copy_to gid = copy_gid gid.id

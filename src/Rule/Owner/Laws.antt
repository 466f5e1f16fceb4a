-- ===== src/Rule/Owner/Laws.antt =====
-- What is read back of a written user or group.
use pfctl_rs.Common.{ℕ, ◌≡◌, refl, Option, none, some, ◌==◌, if◌then◌else◌}
use pfctl_rs.Ffi.{PfRuleUid, PfRuleGid}
use pfctl_rs.Rule.Owner.{
  OwnerId, any, one, range, IdUnaryModifier, IdRangeModifier, unary_to_u8, range_to_u8, Uid, Gid,
  uid_copy_to, gid_copy_to,
}

-- A pf operator on users or groups, as what it says of the two numbers beside it.
abbrev pub owner_of : ℕ → ℕ → ℕ → Option OwnerId
owner_of op a b =
    if op == 0
    then some any
    else if op == 1
    then some (range a b IdRangeModifier.exclusive)
    else if op == 2
    then some (one a IdUnaryModifier.equal)
    else if op == 3
    then some (one a IdUnaryModifier.not_equal)
    else if op == 4
    then some (one a IdUnaryModifier.less)
    else if op == 5
    then some (one a IdUnaryModifier.less_or_equal)
    else if op == 6
    then some (one a IdUnaryModifier.greater)
    else if op == 7
    then some (one a IdUnaryModifier.greater_or_equal)
    else if op == 8
    then some (range a b IdRangeModifier.except)
    else if op == 9
    then some (range a b IdRangeModifier.inclusive)
    else none

abbrev pub uid_read : PfRuleUid → Option OwnerId
uid_read u = owner_of u.op u.uid0 u.uid1

abbrev pub gid_read : PfRuleGid → Option OwnerId
gid_read g = owner_of g.op g.gid0 g.gid1

one-owner_of : (m : IdUnaryModifier) (a b : ℕ) → owner_of (unary_to_u8 m) a b ≡ some (one a m)
one-owner_of IdUnaryModifier.equal a b = refl
one-owner_of IdUnaryModifier.not_equal a b = refl
one-owner_of IdUnaryModifier.less a b = refl
one-owner_of IdUnaryModifier.less_or_equal a b = refl
one-owner_of IdUnaryModifier.greater a b = refl
one-owner_of IdUnaryModifier.greater_or_equal a b = refl

range-owner_of : (m : IdRangeModifier) (a b : ℕ) → owner_of (range_to_u8 m) a b ≡ some (range a b m)
range-owner_of IdRangeModifier.exclusive a b = refl
range-owner_of IdRangeModifier.inclusive a b = refl
range-owner_of IdRangeModifier.except a b = refl

uid_read_back :
    (i : OwnerId) (dst : PfRuleUid) → uid_read (uid_copy_to (record { id = i }) dst) ≡ some i
unfolding uid_copy_to
uid_read_back any dst = refl
uid_read_back (one a m) dst = one-owner_of m a dst.uid1
uid_read_back (range a b m) dst = range-owner_of m a b

gid_read_back :
    (i : OwnerId) (dst : PfRuleGid) → gid_read (gid_copy_to (record { id = i }) dst) ≡ some i
unfolding gid_copy_to
gid_read_back any dst = refl
gid_read_back (one a m) dst = one-owner_of m a dst.gid1
gid_read_back (range a b m) dst = range-owner_of m a b

-- The user and the group of a rule are written so that they read back, whatever stood there before:
-- no operator depends on a number that is left from before.
pub uid_copy_to-gid_copy_to :
    (uid : Uid) (gid : Gid) (u : PfRuleUid) (g : PfRuleGid)
    → (uid_read (uid_copy_to uid u) ≡ some uid.id) × (gid_read (gid_copy_to gid g) ≡ some gid.id)
uid_copy_to-gid_copy_to uid gid u g = (uid_read_back uid.id u, gid_read_back gid.id g)

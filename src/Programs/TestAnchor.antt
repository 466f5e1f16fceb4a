-- ===== src/Programs/TestAnchor.antt =====
-- The anchor of examples/transaction.rs and examples/add_rules.rs.
pub mod Kept
use pfctl_rs.Common.{[], ◌∷◌}
use pfctl_rs.Cstr.{Str}

-- `ANCHOR_NAME`, "test.anchor".
abbrev pub anchor_name : Str
anchor_name = 116 ∷ 101 ∷ 115 ∷ 116 ∷ 46 ∷ 97 ∷ 110 ∷ 99 ∷ 104 ∷ 111 ∷ 114 ∷ []

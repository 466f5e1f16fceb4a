-- ===== src/Programs.antt =====
-- The programs of examples/. What they print is left out.
pub mod Enable
pub mod AddAnchor
pub mod FlushRules
pub mod SingleRules
pub mod AddRules
pub mod TestAnchor
pub mod TransRules
pub mod Transaction
pub mod Main

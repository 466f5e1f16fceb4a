-- ===== src/Transaction.antt =====
-- `Transaction` and `AnchorChange` (src/transaction.rs). The hash map is the list of its entries in
-- the order in which it iterates; a theorem for every such list covers every order.
mod Changes
mod Rules
mod Commit
pub mod Names
pub mod Tickets
pub mod Rulesets
pub mod Elements
pub mod Submission
pub mod Translating
pub mod Staging
pub mod Adding
pub mod Rounds
pub mod Filling
pub mod Run
pub mod Atomic
pub mod Order
pub mod Going
pub mod Distinct
pub mod Completing
unfoldable pub use Changes.*
unfoldable pub use Rules.*
unfoldable pub use Commit.*

-- ===== src/Tests.antt =====
-- A small platform and a small kernel, and the theorems at them.
mod Platforms
mod Kernels
mod Transactions
mod Calls
mod Values
mod Pools
pub mod Anchors
pub mod Orders
mod Programs
mod Written
pub mod Completing
pub mod TransactionProgram
mod AddRulesProgram

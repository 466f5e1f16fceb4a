-- ===== src/Rule.antt =====
-- src/rule: the rules, their fields, and how each is written into `pf_rule`.
pub mod AddrFamily
pub mod Direction
pub mod Proto
pub mod StatePolicy
pub mod Log
pub mod TcpFlags
pub mod Icmp
pub mod Owner
pub mod Port
pub mod Ip
pub mod Interface
pub mod PoolAddr
pub mod Route
pub mod Endpoint
pub mod Action
pub mod Filter
pub mod Nat
pub mod Redirect
pub mod Scrub
pub mod Encoded
pub mod Families
pub mod Writing
pub mod Flags
pub mod Codes
pub mod Decoding
pub mod Builders
